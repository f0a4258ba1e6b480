-- ===== src/Dramsim/Ids.antt =====
-- A whole tick keeps reads with one id apart, whatever the bus and the memory system do.
use mathlib.Core.Option.{none-ne-some}
use chipyard_fault_injection.Common.{
  ℕ, ◌*◌, ◌%◌, ◌&&◌, not, Option, List, [], ◌∷◌, ◌==◌, if◌then◌else◌, Result, ok, ◌>>=◌, assertion,
  Ends-bind, Ends-guard, AnyFault, Gives, Any, Any-Gives, if-both,
}
use chipyard_fault_injection.Axi.{Inputs}
use chipyard_fault_injection.Mm.{Mm, write}
use chipyard_fault_injection.Mm
use chipyard_fault_injection.Dramsim.{
  DramApi, Dramsim, issue, accept_read, accept_address, accept_data, advance, finish, tick,
  ar_ready, aw_ready, w_ready, construct, init,
}
use chipyard_fault_injection.Dramsim.Marking.{
  Apart, callbacks-Apart, issue-Apart, accept_read-Apart, accept_address-Apart, accept_data-Apart,
  finish-Apart,
}

module _ (api : DramApi) where
  -- From a state in which the reads with DRAMSim have different ids and these are marked busy, and
  -- whatever the bus and DRAMSim do: in the state after a call of `tick` that returns it is so again.
  pub tick-Apart : (s : Dramsim api) (x : Inputs) → Apart api s → Gives (Apart api) (tick api s x)
  unfolding tick advance
  tick-Apart s x v =
      Ends-bind AnyFault (Apart api) (Apart api) (issue api s) _ (issue-Apart api s v) (λ s1 v1.
        Ends-bind AnyFault (Apart api) (Apart api)
          (if not x.reset && x.ar_valid && ar_ready api s then accept_read api s1 x else ok s1) _
          (if-both (Gives (Apart api)) (not x.reset && x.ar_valid && ar_ready api s)
            (accept_read-Apart api s1 x v1) v1)
          (λ s2 v2.
            Ends-bind AnyFault (Apart api) (Apart api)
              (if not x.reset && x.aw_valid && aw_ready api s
                then accept_address api s2 x
                else ok s2)
              _
              (if-both (Gives (Apart api)) (not x.reset && x.aw_valid && aw_ready api s)
                (accept_address-Apart api s2 x v2) v2)
              (λ s3 v3.
                Ends-bind AnyFault (Apart api) (Apart api)
                  (if not x.reset && x.w_valid && w_ready api s
                    then accept_data api s3 x
                    else ok s3)
                  _
                  (if-both (Gives (Apart api)) (not x.reset && x.w_valid && w_ready api s)
                    (accept_data-Apart api s3 x v3) v3)
                  (λ s4 v4.
                    Ends-bind AnyFault (Apart api) (Apart api) (advance api _)
                      (λ (t : Dramsim api). ok (finish api x.reset t)) (callbacks-Apart api _ _ v4)
                      (λ t w. finish-Apart api x.reset t w)))))

  unfoldable pub ticks : Dramsim api → List Inputs → Result (Dramsim api)
  ticks s [] = ok s
  ticks s (x ∷ xs) = do t ← tick api s x; ticks t xs

  ticks-Apart : (s : Dramsim api) (xs : List Inputs) → Apart api s → Gives (Apart api) (ticks s xs)
  unfolding ticks
  ticks-Apart s [] v = v
  ticks-Apart s (x ∷ xs) v =
      Ends-bind AnyFault (Apart api) (Apart api) (tick api s x) (λ (t : Dramsim api). ticks t xs)
        (tick-Apart s x v) (λ t w. ticks-Apart t xs w)

  pub construct-Apart : (raw : Dramsim api) (ids : ℕ) → Apart api (construct api raw ids)
  unfolding construct
  construct-Apart raw ids = record {
    busy = λ a i r e. absurd (none-ne-some r e);
    one = λ a i b j r q e f same. absurd (none-ne-some r e);
  }

  init-Apart :
      (s : Dramsim api) (mmap : ℕ → Option (ℕ → ℕ)) (get_memory_system : ℕ → api.State)
      (sz wsz lsz : ℕ)
      → Apart api s
      → Gives (Apart api) (init api s mmap get_memory_system sz wsz lsz)
  unfolding init
  init-Apart s mmap get_memory_system sz wsz lsz v =
      Ends-guard AnyFault (Apart api) (lsz == 64) assertion _ tt (
        Ends-bind AnyFault Any (Apart api) (Mm.init mmap sz wsz lsz) _
          (Any-Gives (Mm.init mmap sz wsz lsz))
          (λ (store : Mm) u.
            Ends-guard AnyFault (Apart api) (store.size % (1024 * 1024) == 0) assertion _ tt v))

  -- From the construction on, after any number of ticks and whatever the bus and DRAMSim do: the reads
  -- that are with DRAMSim have different ids, and these are marked busy.
  pub reads-Apart :
      (raw : Dramsim api) (ids : ℕ) (mmap : ℕ → Option (ℕ → ℕ)) (get_memory_system : ℕ → api.State)
      (sz wsz lsz : ℕ) (xs : List Inputs)
      → Gives
          (Apart api)
          (init api (construct api raw ids) mmap get_memory_system sz wsz lsz >>= λ s. ticks s xs)
  reads-Apart raw ids mmap get_memory_system sz wsz lsz xs =
      Ends-bind AnyFault (Apart api) (Apart api)
        (init api (construct api raw ids) mmap get_memory_system sz wsz lsz)
        (λ (s : Dramsim api). ticks s xs)
        (init-Apart (construct api raw ids) mmap get_memory_system sz wsz lsz
          (construct-Apart raw ids))
        (λ s v. ticks-Apart s xs v)

-- ===== src/Bitbang/Exit.antt =====
-- What holds of the server after any calls, and of a call without an end.
use chipyard_fault_injection.Common.{
  ℕ, zero, suc, ◌≤◌, ◌<◌, ◌≡◌, refl, Option, none, some, inl, inr, ltb, if◌then◌else◌, arith,
  lt→ltb, Bool-cases, ok, replicate,
}
use chipyard_fault_injection.Bitbang.{
  Bitbang, World, closed, Outcome, returns, stops, waits, ◌>>=◌, Pins, Sockets, await_command,
  await_client, accept, reply, dispatch, hang_up, execute_command, tick, init, status, done,
  exit_code,
}
use chipyard_fault_injection.Bitbang.Commands.{dispatch_lem}

pub record Inv (s : Bitbang) : Type 0 where
  pub no_error : s.err_code ≡ 0
  pub trstn_high : s.trstn ≡ 1
  pub quit_flag : s.quit ≤ 1

pub init-Inv : (raw : ℕ) (calls : Sockets) (s : Bitbang) → init raw calls ≡ ok s → Inv s
unfolding init
init-Inv raw calls s e = ground arith

dispatch-Inv : (s : Bitbang) (c : ℕ) → Inv s → Inv (hang_up (dispatch s c).0)
unfolding hang_up
dispatch-Inv s c v = ground (arith, dispatch_lem s c)

-- What holds of the value of a call, if it returns one.
abbrev pub Ensures {ℓ κ} : {A : Type ℓ} → (A → Type κ) → Outcome A → Type κ
Ensures P (returns a) = P a
Ensures P (stops fault) = Unit
Ensures P waits = Unit

pub Ensures-bind {ℓ κ ι} :
    {A : Type ℓ} {B : Type κ} (P : B → Type ι) (m : Outcome A) (f : A → Outcome B)
    → ((a : A) → Ensures P (f a))
    → Ensures P (m >>= f)
Ensures-bind P (returns a) f h = h a
Ensures-bind P (stops fault) f h = tt
Ensures-bind P waits f h = tt

pub Ensures-then {ℓ κ ι ν} :
    {A : Type ℓ} {B : Type κ} (Q : A → Type ν) (P : B → Type ι) (m : Outcome A) (f : A → Outcome B)
    → Ensures Q m
    → ((a : A) → Q a → Ensures P (f a))
    → Ensures P (m >>= f)
Ensures-then Q P (returns a) f q h = h a q
Ensures-then Q P (stops fault) f q h = tt
Ensures-then Q P waits f q h = tt

abbrev After : Bitbang × World → Type 0
After r = Inv r.0

execute_command-Inv : (s : Bitbang) (w : World) → Inv s → Ensures After (execute_command s w)
unfolding execute_command
execute_command-Inv s w v = Ensures-bind After (await_command w.reads) _ (λ read.
    Ensures-bind After (reply (dispatch s read.0).1 (record w { reads = read.1 })) _
      (λ sent. dispatch-Inv s read.0 v))

accept-Inv : (s : Bitbang) (w : World) → Inv s → Ensures After (accept s w)
unfolding accept
accept-Inv s w v =
    Ensures-bind After (await_client w.accepts) _
      (λ got. record { no_error = v.no_error; trstn_high = v.trstn_high; quit_flag = v.quit_flag })

-- Every call of `tick` that returns keeps the error code at 0, TRST high and `quit` a flag, and hands
-- out the pins of the new state.
pub tick-Inv :
    (s : Bitbang) (w : World) (tdo : ℕ)
    → Inv s
    → Ensures
        (λ (r : Bitbang × World × Pins).
          Inv r.0 × (r.2 ≡ record { tck = r.0.tck; tms = r.0.tms; tdi = r.0.tdi; trstn = 1 }))
        (tick s w tdo)
unfolding tick
tick-Inv s w tdo v =
    Ensures-then After _
      (if ltb 0 s.client_fd then execute_command (record s { tdo = tdo }) w else accept s w) _
      (elim (Bool-cases (ltb 0 s.client_fd)) [
        | inl e ↦ simp e (
            execute_command-Inv (record s { tdo = tdo }) w
              (record {
                no_error = v.no_error;
                trstn_high = v.trstn_high;
                quit_flag = v.quit_flag;
              }))
        | inr e ↦ simp e (accept-Inv s w v)
      ])
      (λ r u. (u, ground arith))

pub status-Inv : (s : Bitbang) → Inv s → status s ≡ s.quit
unfolding status done exit_code
status-Inv s v = ground arith

-- The server of SimJTAG.cc, if it is there already.
abbrev pub Made : Option Bitbang → Type 0
Made none = Unit {0}
Made (some s) = Inv s

closed-waits : (n : ℕ) → await_command (replicate n closed) ≡ waits
unfolding await_command
closed-waits zero = refl
closed-waits (suc n) = closed-waits n

-- A client that hangs up without 'Q': every later read is empty, and the call never returns.
pub hang_up-waits :
    (s : Bitbang) (w : World) (tdo n : ℕ)
    → 0 < s.client_fd
    → w.reads ≡ replicate n closed
    → tick s w tdo ≡ waits
unfolding tick execute_command
hang_up-waits s w tdo n fd e = rw (lt→ltb 0 s.client_fd fd, e, closed-waits n)

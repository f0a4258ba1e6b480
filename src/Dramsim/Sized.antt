-- ===== src/Dramsim/Sized.antt =====
-- The words that the model hands out: `r_data` points to a whole word in every cycle.
use chipyard_fault_injection.Common.{
  ℕ, zero, suc, ◌+◌, ◌*◌, ◌≡◌, refl, sym, ap, ◌∙◌, subst, Bool, true, false, ◌&&◌, not, Option,
  none, some, List, [], ◌∷◌, ◌==◌, if◌then◌else◌, replicate, length, length-replicate, ok,
  assertion, Ends-bind, Ends-guard, AnyFault, Gives, Any, Any-Gives, if-both, u64, sub_u64, div_u64,
  shl_int,
}
use chipyard_fault_injection.Axi.{Inputs, Rresp}
use chipyard_fault_injection.Mm.{Mm, read, write}
use chipyard_fault_injection.Magic.Sized.{
  Words, Words-append, Words-tail, read-Gives, write-Gives, front_word,
}
use chipyard_fault_injection.Dramsim.{
  DramApi, Dramsim, Req, mark, pick, push_beats, read_front, read_complete, write_front,
  write_complete, complete, callbacks, issue_picked, issue, accept_read, accept_address,
  accept_data, advance, finish, tick, ar_ready, aw_ready, w_ready, r_data,
}

push_beats-Gives :
    (m : Mm) (start : ℕ) (req : Req) (i n : ℕ) (queue : List Rresp)
    → Words m.word_size queue
    → Gives (Words m.word_size) (push_beats m start req i n queue)
unfolding push_beats
push_beats-Gives m start req i zero queue p = p
push_beats-Gives m start req i (suc n) queue p =
    Ends-bind AnyFault (λ bs. length bs ≡ m.word_size) (Words m.word_size)
      (read m (u64 (start + i * m.word_size))) _ (read-Gives m (u64 (start + i * m.word_size)))
      (λ dat e. push_beats-Gives m start req (i + 1) n _ (
        Words-append m.word_size queue
          (record { id = req.id; bytes = dat; last = i == sub_u64 req.len 1 } ∷ []) p (e, tt)))

module _ (api : DramApi) where
  -- `dummy_data`, which is 0, and the replies have words.
  pub record Sized (s : Dramsim api) : Type 0 where
    pub dummy : s.dummy_data ≡ replicate s.word_size 0
    pub replies : Words s.word_size s.rresp

  same_words :
      {s t : Dramsim api}
      → t.word_size ≡ s.word_size
      → t.dummy_data ≡ s.dummy_data
      → t.rresp ≡ s.rresp
      → Sized s
      → Sized t
  same_words {s} {t} w d q v = record {
    dummy = d ∙ v.dummy ∙ ap (λ (n : ℕ). replicate n 0) (sym w);
    replies =
        subst (λ (n : ℕ). Words n t.rresp) (sym w) (subst (Words s.word_size) (sym q) v.replies);
  }

  read_front-Sized :
      (queue : List Req) (address : ℕ) (s : Dramsim api)
      → Sized s
      → Gives Sized (read_front api queue address s)
  unfolding read_front
  read_front-Sized [] address s v = tt
  read_front-Sized (req ∷ rest) address s v =
      Ends-bind AnyFault Any Sized (div_u64 req.addr s.word_size) _
        (Any-Gives (div_u64 req.addr s.word_size))
        (λ word u.
          Ends-bind AnyFault (Words s.word_size) Sized
            (push_beats s.mm (u64 (word * s.word_size)) req 0 req.len s.rresp) _
            (push_beats-Gives s.mm (u64 (word * s.word_size)) req 0 req.len s.rresp v.replies)
            (λ queue q.
              Ends-bind AnyFault Any Sized (mark s.read_id_busy req.id false) _
                (Any-Gives (mark s.read_id_busy req.id false))
                (λ flags u. record { dummy = v.dummy; replies = q })))

  write_front-Sized :
      (queue : List ℕ) (address : ℕ) (s : Dramsim api)
      → Sized s
      → Gives Sized (write_front api queue address s)
  unfolding write_front
  write_front-Sized [] address s v = tt
  write_front-Sized (id ∷ rest) address s v =
      Ends-bind AnyFault Any Sized (mark s.write_id_busy id false) _
        (Any-Gives (mark s.write_id_busy id false)) (λ flags u. same_words refl refl refl v)

  complete-Sized :
      (w : Bool) (address : ℕ) (s : Dramsim api) → Sized s → Gives Sized (complete api w address s)
  unfolding complete read_complete write_complete
  complete-Sized true address s v = write_front-Sized (s.wreq address) address s v
  complete-Sized false address s v = read_front-Sized (s.rreq address) address s v

  callbacks-Sized :
      (done : List (Bool × ℕ)) (s : Dramsim api) → Sized s → Gives Sized (callbacks api done s)
  unfolding callbacks
  callbacks-Sized [] s v = v
  callbacks-Sized ((w, address) ∷ rest) s v =
      Ends-bind AnyFault Sized Sized (complete api w address s)
        (λ (t : Dramsim api). callbacks api rest t) (complete-Sized w address s v)
        (callbacks-Sized rest)

  issue_picked-Sized :
      (p : Option (Req × List Req)) (s : Dramsim api) → Sized s → Gives Sized (issue_picked api p s)
  unfolding issue_picked
  issue_picked-Sized none s v = v
  issue_picked-Sized (some (req, rest)) s v =
      Ends-bind AnyFault Any Sized (mark s.read_id_busy req.id true) _
        (Any-Gives (mark s.read_id_busy req.id true)) (λ flags u. same_words refl refl refl v)

  issue-Sized : (s : Dramsim api) → Sized s → Gives Sized (issue api s)
  unfolding issue
  issue-Sized s v =
      if-both (Gives Sized) (api.will_accept s.mem)
        (Ends-bind AnyFault Any Sized (pick s.read_id_busy s.rreq_queue) _
          (Any-Gives (pick s.read_id_busy s.rreq_queue)) (λ p u. issue_picked-Sized p s v))
        v

  accept_read-Sized : (s : Dramsim api) (x : Inputs) → Sized s → Gives Sized (accept_read api s x)
  unfolding accept_read
  accept_read-Sized s x v =
      Ends-bind AnyFault Any Sized (shl_int 1 x.ar_size) _ (Any-Gives (shl_int 1 x.ar_size))
        (λ b u. same_words refl refl refl v)

  accept_address-Sized :
      (s : Dramsim api) (x : Inputs) → Sized s → Gives Sized (accept_address api s x)
  unfolding accept_address
  accept_address-Sized s x v =
      Ends-bind AnyFault Any Sized (shl_int 1 x.aw_size) _ (Any-Gives (shl_int 1 x.aw_size))
        (λ b u. same_words refl refl refl v)

  accept_data-Sized : (s : Dramsim api) (x : Inputs) → Sized s → Gives Sized (accept_data api s x)
  unfolding accept_data
  accept_data-Sized s x v =
      Ends-bind AnyFault (λ (m : Mm). m.word_size ≡ s.word_size) Sized
        (write s.mm s.store_addr x.w_data x.w_strb s.store_size) _
        (write-Gives s.mm s.store_addr x.w_data x.w_strb s.store_size)
        (λ store e.
          if-both (Gives Sized) (sub_u64 s.store_count 1 == 0)
            (Ends-guard AnyFault Sized x.w_last assertion _ tt (same_words e refl refl v))
            (same_words e refl refl v))

  finish-Sized : (reset : Bool) (s : Dramsim api) → Sized s → Sized (finish api reset s)
  unfolding finish
  finish-Sized true s v = record { dummy = v.dummy; replies = tt }
  finish-Sized false s v = record { dummy = v.dummy; replies = v.replies }

  tick-Sized : (s : Dramsim api) (x : Inputs) → Sized s → Gives Sized (tick api s x)
  unfolding tick advance
  tick-Sized s x v = Ends-bind AnyFault Sized Sized (issue api s) _ (issue-Sized s v) (λ s1 v1.
      Ends-bind AnyFault Sized Sized
        (if not x.reset && x.ar_valid && ar_ready api s then accept_read api s1 x else ok s1) _
        (if-both (Gives Sized) (not x.reset && x.ar_valid && ar_ready api s)
          (accept_read-Sized s1 x v1) v1)
        (λ s2 v2.
          Ends-bind AnyFault Sized Sized
            (if not x.reset && x.aw_valid && aw_ready api s then accept_address api s2 x else ok s2)
            _
            (if-both (Gives Sized) (not x.reset && x.aw_valid && aw_ready api s)
              (accept_address-Sized s2 x v2) v2)
            (λ s3 v3.
              Ends-bind AnyFault Sized Sized
                (if not x.reset && x.w_valid && w_ready api s then accept_data api s3 x else ok s3)
                _
                (if-both (Gives Sized) (not x.reset && x.w_valid && w_ready api s)
                  (accept_data-Sized s3 x v3) v3)
                (λ s4 v4.
                  Ends-bind AnyFault Sized Sized (callbacks api _ _)
                    (λ (t : Dramsim api). ok (finish api x.reset t))
                    (callbacks-Sized _ _ (record {
                      dummy = v4.dummy;
                      replies =
                          if-both (Words s4.word_size) _
                            (Words-tail s4.word_size s4.rresp v4.replies) v4.replies;
                    }))
                    (λ t w. finish-Sized x.reset t w)))))

  -- Of the state that a call gives.
  pub tick-keeps_Sized : {s t : Dramsim api} (x : Inputs) → Sized s → tick api s x ≡ ok t → Sized t
  tick-keeps_Sized {s} {t} x v e = subst (Gives Sized) e (tick-Sized s x v)

  pub length-r_data : (s : Dramsim api) → Sized s → length (r_data api s) ≡ s.word_size
  unfolding r_data
  length-r_data s v =
      let len : length s.dummy_data ≡ s.word_size =
        ap length v.dummy ∙ length-replicate s.word_size 0 in
      front_word (record { id = 0; bytes = s.dummy_data; last = false }) s.rresp
        (subst (λ (n : ℕ). Words n s.rresp) (sym len) v.replies)
      ∙ len

-- ===== src/Debug/Ticking.antt =====
-- The calls of `debug_tick`, and its exit word.
use chipyard_fault_injection.Common.{
  ℕ, ◌+◌, ◌*◌, ◌%◌, ◌/◌, ◌^◌, ◌<◌, ◌≡◌, ◌↔◌, refl, ap, Bool, true, false, if◌then◌else◌, Option,
  none, some, List, ◌∷◌, Result, ok, err, aborted, ◌>>=◌, exit_word, arith,
}
use chipyard_fault_injection.Common.Calls.{calls, states, last_of, each, calls_lem, calls-err}
use chipyard_fault_injection.Debug.{DtmApi, Ports, get_dtm, outputs, status, debug_tick}

-- What one call gets: the command line as the simulator tells it, if it does, and the wires.
pub record Call : Type 0 where
  pub info : Option (List (List ℕ))
  pub req_ready : Bool
  pub resp_valid : Bool
  pub resp : ℕ
  pub bits : ℕ

exit_word_lem :
    (done : Bool) (code : ℕ)
    → code < 2 ^ 32
    → ((exit_word done code % 2 ≡ 0) ↔ (done ≡ false))
      × (done ≡ true → exit_word done code / 2 ≡ code % 2 ^ 31)
      × (done ≡ true → (exit_word done code ≡ 1) ↔ (code % 2 ^ 31 ≡ 0))
exit_word_lem true code small = ground arith
exit_word_lem false code small = ground arith

exit_word-halved :
    (done : Bool) (code : ℕ) → exit_word done code ≡ (if done then code % 2 ^ 31 * 2 + 1 else 0)
exit_word-halved true code = omega arith
exit_word-halved false code = refl

module _ (api : DtmApi) where
  abbrev pub debug_call : Option api.State → Call → Result (api.State × (Ports × ℕ))
  debug_call dtm x = do
    (t, ports, word) ← debug_tick api x.info dtm x.req_ready x.resp_valid x.resp x.bits
    ok (t, (ports, word))

  -- What a call does to the module, and what the hardware sees of the module then.
  abbrev pub exchange : Call → api.State → api.State
  exchange x dtm = api.tick x.req_ready x.resp_valid (record { resp = x.resp; bits = x.bits }) dtm

  abbrev pub seen : api.State → Ports × ℕ
  seen dtm = (
    record {
      debug_resp_ready = api.resp_ready dtm;
      debug_req_valid = api.req_valid dtm;
      debug_req_bits_addr = api.req_addr dtm;
      debug_req_bits_op = api.req_op dtm;
      debug_req_bits_data = api.req_data dtm;
    },
    if api.done dtm then api.exit_code dtm % 2 ^ 31 * 2 + 1 else 0,
  )

  -- Calls from the start, by what the simulator tells the first one.
  abbrev pub outcome :
      Option (List (List ℕ)) → List Call → Result (Option api.State × List (Ports × ℕ))
  outcome none xs = err aborted
  outcome (some argv) xs =
      let later = states exchange (api.construct argv) xs in
      ok (some (last_of (api.construct argv) later), each seen later)

  outputs-seen : (dtm : api.State) → (outputs api dtm, status api dtm) ≡ seen dtm
  unfolding outputs status
  outputs-seen dtm =
      ap (λ (word : ℕ). ((seen dtm).0, word)) (exit_word-halved (api.done dtm) (api.exit_code dtm))

  debug_call-some :
      (dtm : api.State) (x : Call)
      → debug_call (some dtm) x ≡ ok (exchange x dtm, seen (exchange x dtm))
  unfolding debug_tick get_dtm
  debug_call-some dtm x =
      ap (λ (shown : Ports × ℕ). ok (exchange x dtm, shown)) (outputs-seen (exchange x dtm))

  first_call :
      (argv : List (List ℕ)) (x : Call)
      → x.info ≡ some argv
      → let made = exchange x (api.construct argv) in debug_call none x ≡ ok (made, seen made)
  unfolding debug_tick get_dtm
  first_call argv x told =
      let made = exchange x (api.construct argv) in
      rw told (ap (λ (shown : Ports × ℕ). ok (made, shown)) (outputs-seen made))

  no_call : (x : Call) → x.info ≡ none → debug_call none x ≡ err aborted
  unfolding debug_tick get_dtm
  no_call x untold = rw untold

  from_info :
      (info : Option (List (List ℕ))) (x : Call) (xs : List Call)
      → x.info ≡ info
      → calls debug_call none (x ∷ xs) ≡ outcome info (x ∷ xs)
  from_info none x xs untold = calls-err debug_call x xs aborted (no_call x untold)
  from_info (some argv) x xs told =
      calls_lem debug_call exchange seen (api.construct argv) x xs (first_call argv x told)
        debug_call-some

  -- Calls from the start: where the simulator does not tell its command line to the first one, the
  -- program aborts. Otherwise the first call makes the module from that command line, and no later call
  -- makes another, whatever it would be told; every call ticks the module once, with its request line
  -- and its response, and hands out, of the new state, that it takes a response, that it has a request,
  -- with its address, operation and data, and the exit word: 0 while the module runs, then 1 above twice
  -- the code without its highest bit.
  pub debug_calls_lem :
      (x : Call) (xs : List Call) → calls debug_call none (x ∷ xs) ≡ outcome x.info (x ∷ xs)
  debug_calls_lem x xs = from_info x.info x xs refl

  -- For an exit code of 32 bits: the exit word is even exactly while the module runs. Once it is done,
  -- half the word is the code without its sign bit, and the word is 1, that of a success, exactly for
  -- the codes with no other bit than the sign.
  pub status_lem :
      (dtm : api.State)
      → api.exit_code dtm < 2 ^ 32
      → ((status api dtm % 2 ≡ 0) ↔ (api.done dtm ≡ false))
        × (api.done dtm ≡ true → status api dtm / 2 ≡ api.exit_code dtm % 2 ^ 31)
        × (api.done dtm ≡ true → (status api dtm ≡ 1) ↔ (api.exit_code dtm % 2 ^ 31 ≡ 0))
  unfolding status
  status_lem dtm small = exit_word_lem (api.done dtm) (api.exit_code dtm) small

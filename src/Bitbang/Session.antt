-- ===== src/Bitbang/Session.antt =====
-- A connected client that sends commands, one to a call of `tick`.
use chipyard_fault_injection.Common.{
  ℕ, zero, suc, ◌<◌, ◌≡◌, refl, false, ◌≢◌, Option, none, some, List, [], ◌∷◌, ◌++◌, ◌==◌, arith,
  append-nil, append_assoc, sym, ap, ◌∙◌, lt→ltb,
}
use chipyard_fault_injection.Bitbang.{
  Bitbang, World, Received, again, failed, closed, byte, Sent, stalled, written, Outcome, returns,
  ◌>>=◌, Pins, await_command, await_write, reply, dispatch, hang_up, execute_command, tick,
}
use chipyard_fault_injection.Bitbang.Commands.{drive, answer, dispatch_lem}

-- The script delivers these bytes next, in order, perhaps after reads that bring nothing.
abbrev pub Feeds : List Received → List ℕ → Type 0
Feeds reads [] = Unit {0}
Feeds [] (c ∷ cs) = ⊥
Feeds (again ∷ rest) (c ∷ cs) = Feeds rest (c ∷ cs)
Feeds (failed ∷ rest) (c ∷ cs) = ⊥
Feeds (closed ∷ rest) (c ∷ cs) = Feeds rest (c ∷ cs)
Feeds (byte b ∷ rest) (c ∷ cs) = (b ≡ c) × Feeds rest cs

-- The script takes `n` bytes.
abbrev pub Takes : List Sent → ℕ → Type 0
Takes writes zero = Unit {0}
Takes [] (suc n) = ⊥
Takes (failed ∷ rest) (suc n) = ⊥
Takes (stalled ∷ rest) (suc n) = Takes rest (suc n)
Takes (written ∷ rest) (suc n) = Takes rest n

await_command-Feeds :
    (reads : List Received) (c : ℕ) (cs : List ℕ)
    → Feeds reads (c ∷ cs)
    → (rest : List Received) × (await_command reads ≡ returns (c, rest)) × Feeds rest cs
unfolding await_command
await_command-Feeds [] c cs f = absurd f
await_command-Feeds (again ∷ rest) c cs f = await_command-Feeds rest c cs f
await_command-Feeds (failed ∷ rest) c cs f = absurd f
await_command-Feeds (closed ∷ rest) c cs f = await_command-Feeds rest c cs f
await_command-Feeds (byte b ∷ rest) c cs f = (rest, ap (λ (x : ℕ). returns (x, rest)) f.0, f.1)

await_write-Takes :
    (writes : List Sent) (n : ℕ)
    → Takes writes (suc n)
    → (rest : List Sent) × (await_write writes ≡ returns rest) × Takes rest n
unfolding await_write
await_write-Takes [] n f = absurd f
await_write-Takes (failed ∷ rest) n f = absurd f
await_write-Takes (stalled ∷ rest) n f = await_write-Takes rest n f
await_write-Takes (written ∷ rest) n f = (rest, refl, f)

abbrev pub listed {ℓ} : {A : Type ℓ} → Option A → List A
listed none = []
listed (some a) = a ∷ []

abbrev pub count {ℓ} : {A : Type ℓ} → Option A → ℕ → ℕ
count none n = n
count (some a) n = suc n

reply-Takes :
    (o : Option ℕ) (w : World) (n : ℕ)
    → Takes w.writes (count o n)
    → (rest : List Sent) × (reply o w
        ≡ returns (record w { writes = rest; output = w.output ++ listed o }))
      × Takes rest n
unfolding reply
reply-Takes none w n f = (w.writes, rw append-nil, f)
reply-Takes (some c) w n f = let (rest, e, g) = await_write-Takes w.writes n f in (rest, rw e, g)

-- What is answered to the commands, with the TDO that each call of `tick` brings.
abbrev pub Script : Type 0
Script = List (ℕ × ℕ)

abbrev pub commands : Script → List ℕ
commands [] = []
commands ((c, tdo) ∷ rest) = c ∷ commands rest

abbrev pub answers : Script → List ℕ
answers [] = []
answers ((c, tdo) ∷ rest) = listed (answer tdo c) ++ answers rest

abbrev pub replies_due : Script → ℕ
replies_due [] = 0
replies_due ((c, tdo) ∷ rest) = count (answer tdo c) (replies_due rest)

abbrev pub driven : Bitbang → Script → Bitbang
driven s [] = s
driven s ((c, tdo) ∷ rest) = driven (drive (record s { tdo = tdo }) c) rest

abbrev pub NoQuit : Script → Type 0
NoQuit [] = Unit {0}
NoQuit ((c, tdo) ∷ rest) = (c ≢ b'Q') × NoQuit rest

-- One call of `tick` for each entry of the script.
pub session : Bitbang → World → Script → Outcome (Bitbang × World)
session s w [] = returns (s, w)
session s w ((c, tdo) ∷ rest) = do (s, w, pins) ← tick s w tdo; session s w rest

pub record IsConnected (s : Bitbang) : Type 0 where
  pub fd : 0 < s.client_fd
  pub open_session : s.quit ≡ 0

drive-IsConnected :
    (s : Bitbang) (c tdo : ℕ) → IsConnected s → IsConnected (drive (record s { tdo = tdo }) c)
drive-IsConnected s c tdo v = ground arith

abbrev pins : Bitbang → Pins
pins s = record { tck = s.tck; tms = s.tms; tdi = s.tdi; trstn = s.trstn }

hang_up-open : (s : Bitbang) → s.quit ≡ 0 → hang_up s ≡ s
unfolding hang_up
hang_up-open s e = ground arith

execute_command_lem :
    (s : Bitbang) (w w' : World) (c : ℕ) (rest : List Received)
    → IsConnected s
    → c ≢ b'Q'
    → await_command w.reads ≡ returns (c, rest)
    → reply (answer s.tdo c) (record w { reads = rest }) ≡ returns w'
    → execute_command s w ≡ returns (drive s c, w')
unfolding execute_command
execute_command_lem s w w' c rest v ne e r =
    let quiet : (c == b'Q') ≡ false = ground arith in
    let stays : dispatch s c ≡ (drive s c, answer s.tdo c) = rw quiet at (dispatch_lem s c) in
    rw (e, stays, r, hang_up-open (drive s c) (drive-IsConnected s c s.tdo v).open_session)

tick_lem :
    (s : Bitbang) (w w' : World) (c tdo : ℕ) (rest : List Received)
    → IsConnected s
    → c ≢ b'Q'
    → await_command w.reads ≡ returns (c, rest)
    → reply (answer tdo c) (record w { reads = rest }) ≡ returns w'
    → let t = drive (record s { tdo = tdo }) c in tick s w tdo ≡ returns (t, w', pins t)
unfolding tick
tick_lem s w w' c tdo rest v ne e r = rw (
  lt→ltb 0 s.client_fd v.fd,
  execute_command_lem (record s { tdo = tdo }) w w' c rest
      (record { fd = v.fd; open_session = v.open_session }) ne e r,
)

-- A connected client whose commands hold no 'Q' gets them executed one to a call, whatever empty
-- reads and writes lie between: the pins end as the drive commands in order leave them, and the
-- bytes sent are the answers to the 'R' commands, each with the TDO of its own call.
pub session_lem :
    (s : Bitbang) (w : World) (script : Script)
    → IsConnected s
    → NoQuit script
    → Feeds w.reads (commands script)
    → Takes w.writes (replies_due script)
    → (w' : World) × (session s w script ≡ returns (driven s script, w'))
      × (w'.output ≡ w.output ++ answers script)
unfolding session
session_lem s w [] v q f t = (w, refl, sym (append-nil w.output))
session_lem s w ((c, tdo) ∷ script) v q f t =
    let (reads, e, f') = await_command-Feeds w.reads c (commands script) f in
    let (writes, r, t') =
      reply-Takes (answer tdo c) (record w { reads = reads }) (replies_due script) t in
    let next : World = record w {
      reads = reads;
      writes = writes;
      output = w.output ++ listed (answer tdo c);
    } in
    let (w', go, out) =
      session_lem (drive (record s { tdo = tdo }) c) next script (drive-IsConnected s c tdo v) q.1
        f' t' in
    (
      w',
      rw (tick_lem s w next c tdo reads v q.0 e r) go,
      out ∙ append_assoc w.output (listed (answer tdo c)) (answers script),
    )

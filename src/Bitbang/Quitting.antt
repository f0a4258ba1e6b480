-- ===== src/Bitbang/Quitting.antt =====
-- What the calls of `jtag_tick` give, by the commands that they execute.
use chipyard_fault_injection.Common.{
  ℕ, ◌≡◌, refl, ap, ap₂, sym, ◌∙◌, Option, none, some, List, [], ◌∷◌, ◌++◌, inl, inr, ◌⊎◌, ltb,
  if◌then◌else◌, arith, Bool-cases, Result, ok, err, append_assoc,
}
use chipyard_fault_injection.Common.Text.{contains, joined}
use chipyard_fault_injection.Bitbang.{
  Bitbang, World, Received, again, failed, closed, byte, Outcome, returns, stops, waits, ◌>>=◌,
  Pins, Sockets, await_command, await_client, await_write, accept, reply, dispatch, hang_up,
  execute_command, tick, init, get_jtag, or_else, jtag_tick,
}
use chipyard_fault_injection.Bitbang.Commands.{dispatch_lem}
use chipyard_fault_injection.Bitbang.Exit.{
  Inv, Made, Ensures, Ensures-bind, Ensures-then, init-Inv, tick-Inv, status-Inv,
}

-- The commands that a script of reads brings.
abbrev pub bytes : List Received → List ℕ
bytes [] = []
bytes (again ∷ rest) = bytes rest
bytes (failed ∷ rest) = bytes rest
bytes (closed ∷ rest) = bytes rest
bytes (byte c ∷ rest) = c ∷ bytes rest

-- The flag after some commands.
abbrev pub flag : ℕ → List ℕ → ℕ
flag quit commands = if contains b'Q' commands then 1 else quit

-- A call on a server with this flag executes these commands, at most one, and leaves this flag.
pub record Executes (quit : ℕ) (w : World) (commands : List ℕ) (s' : Bitbang) (w' : World)
    : Type 0 where
  pub taken : bytes w.reads ≡ commands ++ bytes w'.reads
  pub at_most_one : (commands ≡ []) ⊎ ((c : ℕ) × (commands ≡ c ∷ []))
  pub flagged : s'.quit ≡ flag quit commands

abbrev Steps : ℕ → World → Bitbang × World → Type 0
Steps quit w r = (commands : List ℕ) × Executes quit w commands r.0 r.1

await_command-bytes :
    (reads : List Received)
    → Ensures (λ (r : ℕ × List Received). bytes reads ≡ r.0 ∷ bytes r.1) (await_command reads)
unfolding await_command
await_command-bytes [] = tt
await_command-bytes (again ∷ rest) = await_command-bytes rest
await_command-bytes (failed ∷ rest) = tt
await_command-bytes (closed ∷ rest) = await_command-bytes rest
await_command-bytes (byte c ∷ rest) = refl

reply-reads : (o : Option ℕ) (w : World) → Ensures (λ (w' : World). w'.reads ≡ w.reads) (reply o w)
unfolding reply
reply-reads none w = refl
reply-reads (some c) w =
    Ensures-bind (λ (w' : World). w'.reads ≡ w.reads) (await_write w.writes) _ (λ rest. refl)

dispatch-flag : (s : Bitbang) (c : ℕ) → (hang_up (dispatch s c).0).quit ≡ flag s.quit (c ∷ [])
unfolding hang_up
dispatch-flag s c = ground (arith, dispatch_lem s c)

execute_command-Steps : (s : Bitbang) (w : World) → Ensures (Steps s.quit w) (execute_command s w)
unfolding execute_command
execute_command-Steps s w =
    Ensures-then (λ (r : ℕ × List Received). bytes w.reads ≡ r.0 ∷ bytes r.1) (Steps s.quit w)
      (await_command w.reads) _ (await_command-bytes w.reads)
      (λ read taken.
        Ensures-then (λ (w' : World). w'.reads ≡ read.1) (Steps s.quit w)
          (reply (dispatch s read.0).1 (record w { reads = read.1 })) _
          (reply-reads (dispatch s read.0).1 (record w { reads = read.1 }))
          (λ w' same. (
            read.0 ∷ [],
            record {
              taken = taken ∙ ap (λ (l : List Received). read.0 ∷ bytes l) (sym same);
              at_most_one = inr (read.0, refl);
              flagged = dispatch-flag s read.0;
            },
          )))

accept-Steps : (s : Bitbang) (w : World) → Ensures (Steps s.quit w) (accept s w)
unfolding accept
accept-Steps s w =
    Ensures-bind (Steps s.quit w) (await_client w.accepts) _
      (λ got. ([], record { taken = refl; at_most_one = inl refl; flagged = refl }))

tick-Steps :
    (s : Bitbang) (w : World) (tdo : ℕ)
    → Ensures (λ (r : Bitbang × World × Pins). Steps s.quit w (r.0, r.1)) (tick s w tdo)
unfolding tick
tick-Steps s w tdo =
    Ensures-then (Steps s.quit w) _
      (if ltb 0 s.client_fd then execute_command (record s { tdo = tdo }) w else accept s w) _
      (elim (Bool-cases (ltb 0 s.client_fd)) [
        | inl e ↦ simp e (execute_command-Steps (record s { tdo = tdo }) w)
        | inr e ↦ simp e (accept-Steps s w)
      ])
      (λ r steps. steps)

-- The flag before a call; a server that is not there yet has none.
abbrev pub flag_of : Option Bitbang → ℕ
flag_of none = 0
flag_of (some s) = s.quit

Ensures-both {ℓ κ ι} :
    {A : Type ℓ} (P : A → Type κ) (Q : A → Type ι) (m : Outcome A)
    → Ensures P m
    → Ensures Q m
    → Ensures (λ (a : A). P a × Q a) m
Ensures-both P Q (returns a) p q = (p, q)
Ensures-both P Q (stops fault) p q = tt
Ensures-both P Q waits p q = tt

abbrev Starts : ℕ → Bitbang → Type 0
Starts quit s = Inv s × (s.quit ≡ quit)

init-flag : (raw : ℕ) (calls : Sockets) (s : Bitbang) → init raw calls ≡ ok s → s.quit ≡ 0
unfolding init
init-flag raw calls s e = ground arith

or_else-Starts :
    (r : Result Bitbang) → ((s : Bitbang) → r ≡ ok s → Starts 0 s) → Ensures (Starts 0) (or_else r)
unfolding or_else
or_else-Starts (ok s) h = h s refl
or_else-Starts (err fault) h = tt

get_jtag-Starts :
    (raw : ℕ) (calls : Sockets) (jtag : Option Bitbang)
    → Made jtag
    → Ensures (Starts (flag_of jtag)) (get_jtag raw calls jtag)
unfolding get_jtag
get_jtag-Starts raw calls none made =
    or_else-Starts (init raw calls) (λ s e. (init-Inv raw calls s e, init-flag raw calls s e))
get_jtag-Starts raw calls (some s) made = (made, refl)

-- A call of `jtag_tick`.
abbrev Called : ℕ → World → Bitbang × World × Pins × ℕ → Type 0
Called quit w r = Inv r.0 × Steps quit w (r.0, r.1) × (r.3 ≡ r.0.quit)

from_flag :
    (quit quit' : ℕ) (w : World) (r : Bitbang × World)
    → quit ≡ quit'
    → Steps quit w r
    → Steps quit' w r
from_flag quit quit' w r e (commands, x) = (
  commands,
  record {
    taken = x.taken;
    at_most_one = x.at_most_one;
    flagged = x.flagged ∙ ap (λ (q : ℕ). flag q commands) e;
  },
)

jtag_tick-Called :
    (raw : ℕ) (calls : Sockets) (jtag : Option Bitbang) (w : World) (tdo : ℕ)
    → Made jtag
    → Ensures (Called (flag_of jtag) w) (jtag_tick raw calls jtag w tdo)
unfolding jtag_tick
jtag_tick-Called raw calls jtag w tdo made =
    Ensures-then (Starts (flag_of jtag)) (Called (flag_of jtag) w) (get_jtag raw calls jtag) _
      (get_jtag-Starts raw calls jtag made)
      (λ s starts.
        Ensures-then _ (Called (flag_of jtag) w) (tick s w tdo) _
          (Ensures-both _ _ (tick s w tdo) (tick-Inv s w tdo starts.0) (tick-Steps s w tdo))
          (λ r both. (
            both.0.0,
            from_flag s.quit (flag_of jtag) w (r.0, r.1) starts.1 both.1,
            status-Inv r.0 both.0.0,
          )))

-- Calls of `jtag_tick`, with the TDO of each: their values.
unfoldable pub jtag_calls : ℕ → Sockets → Option Bitbang → World → List ℕ → Outcome (World × List ℕ)
jtag_calls raw calls jtag w [] = returns (w, [])
jtag_calls raw calls jtag w (tdo ∷ tdos) = do
  (s, w, pins, value) ← jtag_tick raw calls jtag w tdo
  (w, later) ← jtag_calls raw calls (some s) w tdos
  returns (w, value ∷ later)

abbrev pub IsShort : List ℕ → Type 0
IsShort commands = (commands ≡ []) ⊎ ((c : ℕ) × (commands ≡ c ∷ []))

abbrev pub AllShort : List (List ℕ) → Type 0
AllShort [] = Unit {0}
AllShort (commands ∷ rest) = IsShort commands × AllShort rest

-- The values of calls that execute these commands: 1 from the first 'Q' on.
abbrev pub values : ℕ → List (List ℕ) → List ℕ
values quit [] = []
values quit (commands ∷ rest) = flag quit commands ∷ values (flag quit commands) rest

-- Values that are those of some commands, at most one for each call, which are the next of the script.
abbrev pub Valued : ℕ → World → World × List ℕ → Type 0
Valued quit w r =
    (executed : List (List ℕ)) × AllShort executed
    × (bytes w.reads ≡ joined executed ++ bytes r.0.reads)
    × (r.1 ≡ values quit executed)

after_call :
    (quit value : ℕ) (w : World) (s : Bitbang) (w' : World) (commands : List ℕ) (r : World × List ℕ)
    → Executes quit w commands s w'
    → value ≡ s.quit
    → Valued s.quit w' r
    → Valued quit w (r.0, value ∷ r.1)
after_call quit value w s w' commands r x e (executed, short, taken, same) = (
  commands ∷ executed,
  (x.at_most_one, short),
  x.taken
      ∙ ap (λ (l : List ℕ). commands ++ l) taken
      ∙ sym (append_assoc commands (joined executed) (bytes r.0.reads)),
  ap₂ (λ (v : ℕ) (vs : List ℕ). v ∷ vs) (e ∙ x.flagged)
      (same ∙ ap (λ (q : ℕ). values q executed) x.flagged),
)

-- From a server that keeps its invariant, or none yet, any calls of `jtag_tick` that return: each call
-- executes no command or one, together those that the client sent next, in order; the value of a call
-- is 1 where the client has sent 'Q' in that call or an earlier one, and otherwise what it was before,
-- which at the start is 0.
pub jtag_calls_lem :
    (raw : ℕ) (calls : Sockets) (jtag : Option Bitbang) (w : World) (tdos : List ℕ)
    → Made jtag
    → Ensures (Valued (flag_of jtag) w) (jtag_calls raw calls jtag w tdos)
unfolding jtag_calls
jtag_calls_lem raw calls jtag w [] made = ([], tt, refl, refl)
jtag_calls_lem raw calls jtag w (tdo ∷ tdos) made =
    Ensures-then (Called (flag_of jtag) w) (Valued (flag_of jtag) w)
      (jtag_tick raw calls jtag w tdo) _ (jtag_tick-Called raw calls jtag w tdo made)
      (λ r called.
        Ensures-then (Valued r.0.quit r.1) (Valued (flag_of jtag) w)
          (jtag_calls raw calls (some r.0) r.1 tdos) _
          (jtag_calls_lem raw calls (some r.0) r.1 tdos called.0)
          (λ later valued.
            after_call (flag_of jtag) r.3 w r.0 r.1 called.1.0 later called.1.1 called.2 valued))

-- ===== src/Magic/Sized.antt =====
-- The words that the magic memory hands out: `r_data` points to a whole word in every cycle.
use chipyard_fault_injection.Common.{
  ℕ, zero, suc, ◌+◌, ◌*◌, ◌≡◌, refl, ap, sym, subst, ◌∙◌, Bool, false, ◌&&◌, not, List, [], ◌∷◌,
  ◌++◌, ◌==◌, if◌then◌else◌, if-elim, tail, Ends-guard, AnyFault, Gives, Any, Any-Gives, replicate,
  length-replicate, length, ok, assertion, Ends-bind, u64, sub_u64, mod_u64, div_u64, check_int,
  shl_int, leb,
}
use chipyard_fault_injection.Axi.{Inputs, Rresp}
use chipyard_fault_injection.Mm.{Mm, read, read_bytes, load_byte, write, mask_strobe, write_lanes}
use chipyard_fault_injection.Magic.{
  Magic, push_beats, accept_read, accept_address, accept_data, finish, tick, r_data, front_or,
  ar_ready, aw_ready, w_ready,
}

abbrev pub Words : ℕ → List Rresp → Type 0
Words n [] = Unit {0}
Words n (r ∷ rs) = (length r.bytes ≡ n) × Words n rs

pub Words-append : (n : ℕ) (rs ts : List Rresp) → Words n rs → Words n ts → Words n (rs ++ ts)
Words-append n [] ts p q = q
Words-append n (r ∷ rs) ts p q = (p.0, Words-append n rs ts p.1 q)

pub Words-tail : (n : ℕ) (rs : List Rresp) → Words n rs → Words n (tail rs)
Words-tail n [] p = tt
Words-tail n (r ∷ rs) p = p.1

read_bytes-Gives :
    (limit : ℕ) (cells : ℕ → ℕ) (base n : ℕ)
    → Gives (λ bs. length bs ≡ n) (read_bytes limit cells base n)
unfolding read_bytes
read_bytes-Gives limit cells base zero = refl
read_bytes-Gives limit cells base (suc n) =
    Ends-bind AnyFault Any (λ bs. length bs ≡ suc n) (load_byte limit cells base) _
      (Any-Gives (load_byte limit cells base))
      (λ b u.
        Ends-bind AnyFault (λ bs. length bs ≡ n) (λ bs. length bs ≡ suc n)
          (read_bytes limit cells (base + 1) n) _ (read_bytes-Gives limit cells (base + 1) n)
          (λ rest e. ap suc e))

pub read-Gives : (m : Mm) (addr : ℕ) → Gives (λ bs. length bs ≡ m.word_size) (read m addr)
unfolding read
read-Gives m addr =
    Ends-bind AnyFault Any (λ bs. length bs ≡ m.word_size) (mod_u64 addr m.size) _
      (Any-Gives (mod_u64 addr m.size)) (λ base u. read_bytes-Gives m.size m.cells base m.word_size)

push_beats-Gives :
    (m : Mm) (start id len i n : ℕ) (queue : List Rresp)
    → Words m.word_size queue
    → Gives (Words m.word_size) (push_beats m start id len i n queue)
unfolding push_beats
push_beats-Gives m start id len i zero queue p = p
push_beats-Gives m start id len i (suc n) queue p =
    Ends-bind AnyFault Any (Words m.word_size) (check_int (i * m.word_size)) _
      (Any-Gives (check_int (i * m.word_size)))
      (λ offset u.
        Ends-bind AnyFault (λ bs. length bs ≡ m.word_size) (Words m.word_size)
          (read m (u64 (start + offset))) _ (read-Gives m (u64 (start + offset)))
          (λ dat e.
            Ends-bind AnyFault Any (Words m.word_size) (check_int (i + 1)) _
              (Any-Gives (check_int (i + 1)))
              (λ next u. push_beats-Gives m start id len next n _ (
                Words-append m.word_size queue
                  (record { id = id; bytes = dat; last = i == len } ∷ []) p (e, tt)))))

pub write-Gives :
    (m : Mm) (addr : ℕ) (bytes : List ℕ) (strb size : ℕ)
    → Gives (λ (m' : Mm). m'.word_size ≡ m.word_size) (write m addr bytes strb size)
unfolding write
write-Gives m addr bytes strb size = Ends-guard AnyFault Same (leb size 64) assertion _ tt (
    Ends-bind AnyFault Any Same (mask_strobe m addr strb size) _
      (Any-Gives (mask_strobe m addr strb size))
      (λ lanes u.
        Ends-bind AnyFault Any Same (mod_u64 addr m.size) _ (Any-Gives (mod_u64 addr m.size))
          (λ offset u.
            Ends-bind AnyFault Any Same (div_u64 offset m.word_size) _
              (Any-Gives (div_u64 offset m.word_size))
              (λ row u.
                Ends-bind AnyFault Any Same
                  (write_lanes m.size (row * m.word_size) 0 m.word_size lanes bytes m.cells) _
                  (Any-Gives
                    (write_lanes m.size (row * m.word_size) 0 m.word_size lanes bytes m.cells))
                  (λ next u. refl)))))
  where
    Same : Mm → Type 0
    Same m' = m'.word_size ≡ m.word_size

-- The words that a client can be handed: `dummy_data`, which is 0, and those of the replies.
pub record Sized (s : Magic) : Type 0 where
  pub dummy : s.dummy_data ≡ replicate s.word_size 0
  pub replies : Words s.word_size s.rresp

same_words :
    {s t : Magic}
    → t.word_size ≡ s.word_size
    → t.dummy_data ≡ s.dummy_data
    → t.rresp ≡ s.rresp
    → Sized s
    → Sized t
same_words {s} {t} w d q v = record {
  dummy = d ∙ v.dummy ∙ ap (λ (n : ℕ). replicate n 0) (sym w);
  replies =
      subst (λ (n : ℕ). Words n t.rresp) (sym w) (subst (Words s.word_size) (sym q) v.replies);
}

accept_read-Sized : (s : Magic) (x : Inputs) → Sized s → Gives Sized (accept_read s x)
unfolding accept_read
accept_read-Sized s x v =
    Ends-bind AnyFault Any Sized (div_u64 x.ar_addr s.word_size) _
      (Any-Gives (div_u64 x.ar_addr s.word_size))
      (λ word u.
        Ends-bind AnyFault (Words s.word_size) Sized
          (push_beats s.mm (word * s.word_size) x.ar_id x.ar_len 0 (suc x.ar_len) s.rresp) _
          (push_beats-Gives s.mm (word * s.word_size) x.ar_id x.ar_len 0 (suc x.ar_len) s.rresp
            v.replies)
          (λ queue w. record { dummy = v.dummy; replies = w }))

accept_address-Sized : (s : Magic) (x : Inputs) → Sized s → Gives Sized (accept_address s x)
unfolding accept_address
accept_address-Sized s x v =
    Ends-bind AnyFault Any Sized (shl_int 1 x.aw_size) _ (Any-Gives (shl_int 1 x.aw_size))
      (λ bytes u. record { dummy = v.dummy; replies = v.replies })

accept_data-Sized : (s : Magic) (x : Inputs) → Sized s → Gives Sized (accept_data s x)
unfolding accept_data
accept_data-Sized s x v =
    Ends-bind AnyFault (λ (m : Mm). m.word_size ≡ s.word_size) Sized
      (write s.mm s.store_addr x.w_data x.w_strb s.store_size) _
      (write-Gives s.mm s.store_addr x.w_data x.w_strb s.store_size)
      (λ store e.
        if-elim (Gives Sized) (sub_u64 s.store_count 1 == 0)
          (λ last. Ends-guard AnyFault Sized x.w_last assertion _ tt (same_words e refl refl v))
          (λ more. same_words e refl refl v))

finish-Sized : (s : Magic) (x : Inputs) (b r : Bool) → Sized s → Sized (finish s x b r)
unfolding finish
finish-Sized s x b r v =
    if-elim Sized x.reset (λ e. record { dummy = v.dummy; replies = tt })
      (λ e. record {
        dummy = v.dummy;
        replies =
            if-elim (Words s.word_size) r (λ taken. Words-tail s.word_size s.rresp v.replies)
              (λ kept. v.replies);
      })

-- Whatever the bus does, after a call of `tick` that returns `r_data` points to a whole word.
pub tick-Sized : (s : Magic) (x : Inputs) → Sized s → Gives Sized (tick s x)
unfolding tick
tick-Sized s x v =
    Ends-bind AnyFault Sized Sized
      (if not x.reset && x.ar_valid && ar_ready s then accept_read s x else ok s) _
      (if-elim (Gives Sized) (not x.reset && x.ar_valid && ar_ready s)
        (λ e. accept_read-Sized s x v) (λ e. v))
      (λ s1 v1.
        Ends-bind AnyFault Sized Sized
          (if not x.reset && x.aw_valid && aw_ready s then accept_address s1 x else ok s1) _
          (if-elim (Gives Sized) (not x.reset && x.aw_valid && aw_ready s)
            (λ e. accept_address-Sized s1 x v1) (λ e. v1))
          (λ s2 v2.
            Ends-bind AnyFault Sized Sized
              (if not x.reset && x.w_valid && w_ready s then accept_data s2 x else ok s2) _
              (if-elim (Gives Sized) (not x.reset && x.w_valid && w_ready s)
                (λ e. accept_data-Sized s2 x v2) (λ e. v2))
              (λ s3 v3. finish-Sized s3 x _ _ v3)))

-- The same of the state that a call gives.
pub tick-keeps_Sized : {s t : Magic} (x : Inputs) → Sized s → tick s x ≡ ok t → Sized t
tick-keeps_Sized {s} {t} x v e = subst (Gives Sized) e (tick-Sized s x v)

pub front_word :
    (r : Rresp) (queue : List Rresp)
    → Words (length r.bytes) queue
    → length (front_or r queue).bytes ≡ length r.bytes
front_word r [] w = refl
front_word r (x ∷ xs) w = w.0

dummy-length : (s : Magic) → Sized s → length s.dummy_data ≡ s.word_size
dummy-length s v = ap length v.dummy ∙ length-replicate s.word_size 0

-- `r_data` is a word.
pub length-r_data : (s : Magic) → Sized s → length (r_data s) ≡ s.word_size
unfolding r_data
length-r_data s v =
    front_word (record { id = 0; bytes = s.dummy_data; last = false }) s.rresp
      (subst (λ (n : ℕ). Words n s.rresp) (sym (dummy-length s v)) v.replies)
    ∙ dummy-length s v

-- ===== src/Magic/Starting.antt =====
-- `mm_magic_t::init`: the state that the first tick finds.
use chipyard_fault_injection.Common.{ℕ, ◌≡◌, refl, false, Option, [], replicate, ok, arith}
use chipyard_fault_injection.Mm.{Mm}
use chipyard_fault_injection.Mm
use chipyard_fault_injection.Mm.Masks.{IsValid}
use chipyard_fault_injection.Magic.{Magic, init}
use chipyard_fault_injection.Magic.Channels.{Inv}
use chipyard_fault_injection.Magic.Sized.{Sized}

-- Whatever the constructor left, a valid store makes a valid model with nothing outstanding.
pub init-Inv :
    (raw : Magic) (mmap : ℕ → Option (ℕ → ℕ)) (sz wsz lsz : ℕ) (store : Mm)
    → Mm.init mmap sz wsz lsz ≡ ok store
    → IsValid store
    → (t : Magic) × (init raw mmap sz wsz lsz ≡ ok t)
      × (t.mm ≡ store)
      × (t.store_inflight ≡ false)
      × (t.bresp ≡ [])
      × (t.rresp ≡ [])
      × Inv t
      × Sized t
unfolding init
init-Inv raw mmap sz wsz lsz store made v =
    let t : Magic = record raw {
      mm = store;
      store_inflight = false;
      dummy_data = replicate store.word_size 0;
      bresp = [];
      rresp = [];
    } in
    (
      t,
      rw made,
      refl,
      refl,
      refl,
      refl,
      record {
        store = v;
        transfer = λ e. absurd (ground (arith, e));
        count_pos = λ e. absurd (ground (arith, e));
        count_u64 = λ e. absurd (ground (arith, e));
      },
      record { dummy = refl; replies = tt },
    )

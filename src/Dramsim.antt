-- ===== src/Dramsim.antt =====
-- mm_dramsim2.h and mm_dramsim2.cc, class `mm_dramsim2_t`: the memory model whose delays come from
-- DRAMSim. The memory system of DRAMSim is a parameter.
pub mod Pending
pub mod Callbacks
pub mod Faults
pub mod Ticking
pub mod Starting
pub mod Picking
pub mod Exclusive
pub mod Marking
pub mod Ids
pub mod Ready
pub mod Returning
pub mod Accepting
pub mod Serving
pub mod Sized
pub mod Samples
mod Tests
use chipyard_fault_injection.Common.{
  ℕ, zero, suc, ◌+◌, ◌-◌, ◌*◌, ◌/◌, ◌%◌, ◌^◌, Bool, true, false, ◌&&◌, not, Option, none, some,
  List, [], ◌∷◌, ◌++◌, ltb, ◌==◌, if◌then◌else◌, get_elem?, set, length, tail, replicate, Result,
  ok, err, ◌>>=◌, ◌>>◌, guard, assertion, out_of_bounds, u64, sub_u64, sext32, div_u64, shl_int,
}
use chipyard_fault_injection.Axi.{Inputs, Rresp}
use chipyard_fault_injection.Mm.{Mm, read, write}
use chipyard_fault_injection.Mm
use chipyard_fault_injection.Magic.{is_empty, front_or}

-- `mm_req_t`.
pub record Req : Type 0 where
  pub id : ℕ
  pub size : ℕ
  pub len : ℕ
  pub addr : ℕ

-- `MultiChannelMemorySystem`. A transaction is a write or not, and an address; `update` calls back
-- for the transactions that it lists, in order.
pub record DramApi : Type 1 where
  pub State : Type 0
  pub will_accept : State → Bool
  pub add_transaction : Bool → ℕ → State → State
  pub update : State → State × List (Bool × ℕ)

-- A `std::vector<bool>`: an index beyond its end is undefined.
unfoldable pub is_busy : List Bool → ℕ → Result Bool
is_busy flags id = elim (get_elem? flags id) [ none ↦ err out_of_bounds | some b ↦ ok b ]

unfoldable pub mark : List Bool → ℕ → Bool → Result (List Bool)
mark flags id b = if ltb id (length flags) then ok (set flags id b) else err out_of_bounds

-- A `std::map` of queues, which are empty where nothing was pushed.
abbrev pub set_queue {ℓ} : {A : Type ℓ} → (ℕ → List A) → ℕ → List A → ℕ → List A
set_queue queues a queue = λ x. if x == a then queue else queues x

-- Lines 101 to 110: the first request whose id is not busy, and the others.
unfoldable pub behind : Req → Option (Req × List Req) → Option (Req × List Req)
behind r none = none
behind r (some (picked, rest)) = some (picked, r ∷ rest)

unfoldable pub pick : List Bool → List Req → Result (Option (Req × List Req))
pick flags [] = ok none
pick flags (r ∷ rs) = do
  busy ← is_busy flags r.id
  if busy then (do p ← pick flags rs; ok (behind r p)) else ok (some (r, rs))

-- Lines 22 to 25, with `n` rounds left at round `i`.
unfoldable pub push_beats : Mm → ℕ → Req → ℕ → ℕ → List Rresp → Result (List Rresp)
push_beats m start req i zero queue = ok queue
push_beats m start req i (suc n) queue = do
  dat ← read m (u64 (start + i * m.word_size))
  push_beats m start req (i + 1) n
      (queue ++ record { id = req.id; bytes = dat; last = i == sub_u64 req.len 1 } ∷ [])

module _ (api : DramApi) where
  open api use {State, will_accept, add_transaction, update}

  pub record Dramsim : Type 0 where
    pub mm : Mm
    pub open mm use *
    pub mem : State
    pub store_inflight : Bool
    pub store_addr : ℕ
    pub store_id : ℕ
    pub store_size : ℕ
    pub store_count : ℕ
    pub dummy_data : List ℕ
    pub bresp : List ℕ
    pub wreq : ℕ → List ℕ
    pub rreq : ℕ → List Req
    pub rresp : List Rresp
    pub read_id_busy : List Bool
    pub write_id_busy : List Bool
    pub rreq_queue : List Req
    pub cycle : ℕ

  -- `init`: the memory system is made for the size in megabytes. The fields of `raw` are what the
  -- constructor leaves; it sets `store_inflight`, the busy flags and the empty queues.
  unfoldable pub init : Dramsim → (ℕ → Option (ℕ → ℕ)) → (ℕ → State) → ℕ → ℕ → ℕ → Result Dramsim
  init raw mmap get_memory_system sz wsz lsz = do
    guard (lsz == 64) assertion
    store ← Mm.init mmap sz wsz lsz
    guard (store.size % (1024 * 1024) == 0) assertion
    ok (record raw {
      mm = store;
      dummy_data = replicate store.word_size 0;
      mem = get_memory_system (store.size / (1024 * 1024));
    })

  -- The constructor, over the uninitialised scalars of `raw`.
  unfoldable pub construct : Dramsim → ℕ → Dramsim
  construct raw axi4_ids = record raw {
    store_inflight = false;
    bresp = [];
    wreq = λ a. [];
    rreq = λ a. [];
    rresp = [];
    read_id_busy = replicate axi4_ids false;
    write_id_busy = replicate axi4_ids false;
    rreq_queue = [];
  }

  unfoldable pub ar_ready : Dramsim → Bool
  ar_ready s = will_accept s.mem

  unfoldable pub aw_ready : Dramsim → Bool
  aw_ready s = will_accept s.mem && not s.store_inflight

  unfoldable pub w_ready : Dramsim → Bool
  w_ready s = s.store_inflight

  unfoldable pub b_valid : Dramsim → Bool
  b_valid s = not (is_empty s.bresp)

  unfoldable pub r_valid : Dramsim → Bool
  r_valid s = not (is_empty s.rresp)

  unfoldable pub b_id : Dramsim → ℕ
  b_id s = front_or 0 s.bresp

  unfoldable pub r_id : Dramsim → ℕ
  r_id s = (front_or (record { id = 0; bytes = []; last = false }) s.rresp).id

  unfoldable pub r_data : Dramsim → List ℕ
  r_data s = (front_or (record { id = 0; bytes = s.dummy_data; last = false }) s.rresp).bytes

  unfoldable pub r_last : Dramsim → Bool
  r_last s = (front_or (record { id = 0; bytes = []; last = false }) s.rresp).last

  -- The callbacks, with the queue of the address.
  unfoldable pub read_front : List Req → ℕ → Dramsim → Result Dramsim
  read_front [] address s = err assertion
  read_front (req ∷ rest) address s = do
    word ← div_u64 req.addr s.word_size
    queue ← push_beats s.mm (u64 (word * s.word_size)) req 0 req.len s.rresp
    flags ← mark s.read_id_busy req.id false
    ok (record s { rresp = queue; read_id_busy = flags; rreq = set_queue s.rreq address rest })

  unfoldable pub read_complete : ℕ → Dramsim → Result Dramsim
  read_complete address s = read_front (s.rreq address) address s

  unfoldable pub write_front : List ℕ → ℕ → Dramsim → Result Dramsim
  write_front [] address s = err assertion
  write_front (b_id ∷ rest) address s = do
    flags ← mark s.write_id_busy b_id false
    ok (record s {
      bresp = s.bresp ++ b_id ∷ [];
      write_id_busy = flags;
      wreq = set_queue s.wreq address rest;
    })

  unfoldable pub write_complete : ℕ → Dramsim → Result Dramsim
  write_complete address s = write_front (s.wreq address) address s

  -- The callbacks of one `update`.
  unfoldable pub complete : Bool → ℕ → Dramsim → Result Dramsim
  complete true address s = write_complete address s
  complete false address s = read_complete address s

  unfoldable pub callbacks : List (Bool × ℕ) → Dramsim → Result Dramsim
  callbacks [] s = ok s
  callbacks ((is_write, address) ∷ rest) s = do s ← complete is_write address s; callbacks rest s

  -- Lines 100 to 111.
  unfoldable pub issue_picked : Option (Req × List Req) → Dramsim → Result Dramsim
  issue_picked none s = ok s
  issue_picked (some (req, rest)) s = do
    flags ← mark s.read_id_busy req.id true
    ok (record s {
      read_id_busy = flags;
      rreq = set_queue s.rreq req.addr (s.rreq req.addr ++ req ∷ []);
      mem = add_transaction false req.addr s.mem;
      rreq_queue = rest;
    })

  unfoldable pub issue : Dramsim → Result Dramsim
  issue s =
      if will_accept s.mem
      then (do picked ← pick s.read_id_busy s.rreq_queue; issue_picked picked s)
      else ok s

  unfoldable pub accept_read : Dramsim → Inputs → Result Dramsim
  accept_read s x = do
    bytes ← shl_int 1 x.ar_size
    ok (record s {
      rreq_queue =
          s.rreq_queue
          ++ record {
            id = x.ar_id;
            size = sext32 bytes;
            len = u64 (x.ar_len + 1);
            addr = x.ar_addr;
          }
            ∷ [];
    })

  unfoldable pub accept_address : Dramsim → Inputs → Result Dramsim
  accept_address s x = do
    bytes ← shl_int 1 x.aw_size
    ok (record s {
      store_addr = x.aw_addr;
      store_id = x.aw_id;
      store_count = u64 (x.aw_len + 1);
      store_size = sext32 bytes;
      store_inflight = true;
    })

  unfoldable pub accept_data : Dramsim → Inputs → Result Dramsim
  accept_data s x = do
    store ← write s.mm s.store_addr x.w_data x.w_strb s.store_size
    let next : Dramsim = record s {
      mm = store;
      store_addr = u64 (s.store_addr + s.store_size);
      store_count = sub_u64 s.store_count 1;
    }
    if next.store_count == 0
        then guard x.w_last assertion
          >> ok (record next {
            store_inflight = false;
            mem = add_transaction true next.store_addr s.mem;
            wreq = set_queue s.wreq next.store_addr (s.wreq next.store_addr ++ s.store_id ∷ []);
          })
        else ok next

  -- `mem->update()` with its callbacks.
  unfoldable pub advance : Dramsim → Result Dramsim
  advance s = callbacks (update s.mem).1 (record s { mem = (update s.mem).0 })

  -- The end of `tick`.
  unfoldable pub finish : Bool → Dramsim → Dramsim
  finish reset s =
      if reset
      then record s { bresp = []; rresp = []; cycle = 0 }
      else record s { cycle = u64 (s.cycle + 1) }

  unfoldable pub tick : Dramsim → Inputs → Result Dramsim
  tick s x = do
    let ar_fire = not x.reset && x.ar_valid && ar_ready s
    let aw_fire = not x.reset && x.aw_valid && aw_ready s
    let w_fire = not x.reset && x.w_valid && w_ready s
    let r_fire = not x.reset && r_valid s && x.r_ready
    let b_fire = not x.reset && b_valid s && x.b_ready
    s ← issue s
    s ← if ar_fire then accept_read s x else ok s
    s ← if aw_fire then accept_address s x else ok s
    s ← if w_fire then accept_data s x else ok s
    let popped : Dramsim = record s {
      bresp = if b_fire then tail s.bresp else s.bresp;
      rresp = if r_fire then tail s.rresp else s.rresp;
    }
    s ← advance popped
    ok (finish x.reset s)

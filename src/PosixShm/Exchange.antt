-- ===== src/PosixShm/Exchange.antt =====
-- The object of src/include/23.shm_posix.h between the loop of src/23.lab_shm_posix_producer.c and the
-- loops of any number of consumers, src/23.lab_shm_posix_consumer.c, interleaved in any order, one access
-- to the object at a time. A failed call ends a process and is left out. sleep(1) and
-- pthread_cond_wait may return at any time.
pub mod Invariant
pub mod Printing
use qnx_box.Prelude.{
  ℕ, zero, suc, ◌+◌, ◌-◌, ◌%◌, ◌/◌, ◌^◌, ◌<◌, ◌≡◌, ◌≢◌, Bool, true, false, Option, none, some, List,
  [], ◌∷◌, ◌++◌, ltb, if◌then◌else◌, update,
}
use qnx_box.CString.{codes, take}

abbrev pub max_text_len : ℕ
max_text_len = 100

abbrev pub u64 : ℕ → ℕ
u64 n = n % 2 ^ 64

-- The digits of a number in front of a text; an unsigned long has at most 20.
abbrev pub decimal : ℕ → ℕ → List ℕ → List ℕ
decimal zero n s = s
decimal (suc k) n s =
    let rest = decimal k (n / 10) ((b'0' + n % 10) ∷ s) in if ltb n 10 then (b'0' + n) ∷ s else rest

-- What snprintf writes for a version, up to the NUL.
unfoldable pub data_update : ℕ → List ℕ
data_update version =
    take (max_text_len - 1) (codes "data update: " ++ decimal 20 version (10 ∷ []))

-- The object: the flag, the mutex as its owner (0 is the producer, a successor a consumer), `data`, which
-- is the number of the version, and the text, which is `none` while snprintf writes it; and how often `++ptr->data` was
-- done.
pub record Object : Type 0 where
  pub init_flag : Bool
  pub mutex : Option ℕ
  pub version : ℕ
  pub text : Option (List ℕ)
  pub updates : ℕ

-- Where the producer stands, from the assignment to `init_flag` on.
pub data Producer : Type 0 where
  initializing : Producer
  sleeping : Producer  -- before or in sleep(1)
  locking : Producer
  counting : Producer  -- before `++ptr->data`
  counted : (v : ℕ) → Producer  -- has read `ptr->data`
  printing : Producer  -- before snprintf
  writing : Producer  -- in snprintf
  unlocking : Producer
  broadcasting : Producer

-- A move of the producer; its broadcast is in `Step`.
pub data Produce (m : Object) : Producer → Object → Producer → Type 0 where
  initialize : Produce m initializing (record m { init_flag = true }) sleeping
  awake : Produce m sleeping m locking
  lock : m.mutex ≡ none → Produce m locking (record m { mutex = some 0 }) counting
  read : Produce m counting m (counted m.version)
  count :
      {v : ℕ}
      → Produce m (counted v) (record m { version = u64 (v + 1); updates = suc m.updates }) printing
  print : Produce m printing (record m { text = none }) writing
  printed : Produce m writing (record m { text = some (data_update m.version) }) unlocking
  unlock : Produce m unlocking (record m { mutex = none }) broadcasting

-- Where a consumer stands, from the last loop of `get_shared_memory_pointer` on.
pub data Place : Type 0 where
  starting : Place  -- before it sees `init_flag` set
  entering : Place  -- before pthread_mutex_lock
  testing : Place  -- before `last_version == ptr->data`
  waiting : Place  -- asleep in pthread_cond_wait
  waking : Place  -- signalled, and before pthread_cond_wait has the mutex again
  copying : Place  -- before `last_version = ptr->data`
  copying_text : Place  -- before strlcpy
  leaving : Place  -- before pthread_mutex_unlock
  showing : Place  -- before printf

-- A consumer: its place, its variables, and the versions and texts that it has printed, the last first.
pub record Consumer : Type 0 where
  pub place : Place
  pub last_version : ℕ
  pub local_text : Option (List ℕ)
  pub shown : List (ℕ × Option (List ℕ))

abbrev pub goes : Consumer → Place → Consumer
goes c p = record c { place = p }

-- A move of the consumer `j` from a place.
pub data Consume (j : ℕ) (m : Object) (c : Consumer) : Place → Object → Consumer → Type 0 where
  start : m.init_flag ≡ true → Consume j m c starting m (goes c entering)
  enter :
      m.mutex ≡ none → Consume j m c entering (record m { mutex = some (suc j) }) (goes c testing)
  wait :
      c.last_version ≡ m.version
      → Consume j m c testing (record m { mutex = none }) (goes c waiting)
  wake : Consume j m c waiting m (goes c waking)
  relock :
      m.mutex ≡ none → Consume j m c waking (record m { mutex = some (suc j) }) (goes c testing)
  go_on : c.last_version ≢ m.version → Consume j m c testing m (goes c copying)
  copy : Consume j m c copying m (record c { place = copying_text; last_version = m.version })
  copy_text : Consume j m c copying_text m (record c { place = leaving; local_text = m.text })
  leave : Consume j m c leaving (record m { mutex = none }) (goes c showing)
  show :
      Consume j m c showing m
        (record c { place = entering; shown = (c.last_version, c.local_text) ∷ c.shown })

pub record System : Type 0 where
  pub obj : Object
  pub producer : Producer
  pub consumer : ℕ → Consumer

-- pthread_cond_broadcast, for one consumer.
abbrev pub signalled : Consumer → Consumer
signalled c = record c { place = elim c.place [ waiting ↦ waking | p ↦ p ] }

pub data Step (s : System) : System → Type 0 where
  produce :
      {m : Object} {p : Producer}
      → Produce s.obj s.producer m p
      → Step s (record s { obj = m; producer = p })
  broadcast :
      s.producer ≡ broadcasting
      → Step s (record s { producer = sleeping; consumer = λ j. signalled (s.consumer j) })
  consume :
      (j : ℕ) {m : Object} {c : Consumer}
      → Consume j s.obj (s.consumer j) (s.consumer j).place m c
      → Step s (record s { obj = m; consumer = update s.consumer j c })

-- ftruncate has filled the object with zeros.
abbrev pub init : System
init = record {
  obj = record { init_flag = false; mutex = none; version = 0; text = some []; updates = 0 };
  producer = initializing;
  consumer = λ j. record { place = starting; last_version = 0; local_text = some []; shown = [] };
}

pub data Reach (a : System) : System → Type 0 where
  here : Reach a a
  next : {s u : System} → Reach a s → Step s u → Reach a u

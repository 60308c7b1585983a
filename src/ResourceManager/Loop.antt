-- ===== src/ResourceManager/Loop.antt =====
-- `qnx_lab_resource_manager` of src/30.lab_resource_manager.c: the options, the set-up and the loop. The
-- library calls the handler of a message from `dispatch_handler`; what it does with a handler's result is
-- its documented behaviour: it answers the client, unless the result is _RESMGR_NOREPLY.
pub mod Clients
use qnx_box.Prelude.{
  ℕ, suc, ◌+◌, ◌<◌, ◌≡◌, Bool, true, false, Option, none, some, List, [], ◌∷◌, ◌++◌, ltb, ◌==◌,
  if◌then◌else◌,
}
use qnx_box.ResourceManager.{
  Request, Os, Call, reply, Return, no_reply, errno, Flags, io_read, io_write,
}

-- `options`: `optv` after what getopt returned, up to its -1.
abbrev pub count_v : ℕ → List ℕ → ℕ
count_v optv [] = optv
count_v optv (opt ∷ opts) = count_v (if opt == b'v' then optv + 1 else optv) opts

abbrev pub options : List ℕ → ℕ
options opts = count_v 0 opts

-- The outcomes of the set-up.
pub record Setup : Type 0 where
  pub channel_ok : Bool  -- dispatch_create_channel
  pub attach_ok : Bool  -- secpol_resmgr_attach
  pub context_ok : Bool  -- dispatch_context_alloc

-- The functions of the device.
pub data Operation : Type 0 where
  open_device : (status : ℕ) → Operation  -- with what iofunc_open_default returns
  read : Os → Request → Operation
  write : Os → Request → Operation

-- What dispatch_block gives: NULL, a pulse, or a message.
pub data Event : Type 0 where
  block_failed : Event
  pulse : (code : ℕ) → Event
  message : (rcvid type : ℕ) → Operation → Event

abbrev pub io_open : ℕ → Return
io_open status = errno status

-- The table of functions: the result, the calls and the flags.
unfoldable pub handler : Operation → Flags → Return × List Call × Flags
handler (open_device status) f = (io_open status, [], f)
handler (read os q) f = io_read os q f
handler (write os q) f = io_write os q f

-- What a client gets: a status with bytes, from the handler, or the status that the library answers with.
pub data Answer : Type 0 where
  replied : (status : ℕ) → List ℕ → Answer
  returned : (status : ℕ) → Answer

abbrev pub replied_by : List Call → List Answer
replied_by [] = []
replied_by (reply status bytes ∷ cs) = replied status bytes ∷ replied_by cs
replied_by (_ ∷ cs) = replied_by cs

abbrev pub answered_by : Return → List Answer
answered_by no_reply = []
answered_by (errno status) = returned status ∷ []

-- A line of the option -v, the second level of which shows what arrives.
pub data Trace : Type 0 where
  pulse_code : ℕ → Trace
  message_type : ℕ → Trace
  function : Operation → Trace

abbrev pub arrival : ℕ → Trace → List Trace
arrival optv t = if ltb 1 optv then t ∷ [] else []

abbrev pub called : ℕ → Operation → List Trace
called optv op = if ltb 0 optv then function op ∷ [] else []

-- What the loop does: the answers with the clients that get them, what is traced, and the flags.
pub record Served : Type 0 where
  pub answers : List (ℕ × Answer)
  pub traced : List Trace
  pub flags : Flags

abbrev pub for_client : ℕ → List Answer → List (ℕ × Answer)
for_client rcvid [] = []
for_client rcvid (a ∷ answers) = (rcvid, a) ∷ for_client rcvid answers

abbrev pub before : List (ℕ × Answer) → List Trace → Served → Served
before answers ts r = record r { answers = answers ++ r.answers; traced = ts ++ r.traced }

-- The loop, up to the exit or the end of the events.
unfoldable pub loop : ℕ → Flags → List Event → Served
loop optv f [] = record { answers = []; traced = []; flags = f }
loop optv f (block_failed ∷ es) = record { answers = []; traced = []; flags = f }
loop optv f (pulse code ∷ es) = before [] (arrival optv (pulse_code code)) (loop optv f es)
loop optv f (message rcvid type op ∷ es) =
    let (result, cs, g) = handler op f in
    before (for_client rcvid (replied_by cs ++ answered_by result))
      (arrival optv (message_type type) ++ called optv op) (loop optv g es)

-- The whole; `none` is exit(EXIT_FAILURE) in front of the loop.
unfoldable pub resource_manager : List ℕ → Setup → Flags → List Event → Option Served
resource_manager opts setup f es =
    let served = loop (options opts) f es in
    if setup.channel_ok
    then if setup.attach_ok then if setup.context_ok then some served else none else none
    else none

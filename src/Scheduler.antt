-- ===== src/Scheduler.antt =====
-- The prefill/decode scheduler of src/runtime/pd_scheduler.py. Its two queues stand here, the
-- resources of a phase in the modules below. A request is a shared object, so a store holds the
-- requests, and the queues hold references, which are positions of the store. `metadata`, which no
-- code reads or writes, is left out.
pub mod CpuList
pub mod Phases
pub mod Laws
use pocket_mo_e.Prelude.{
  ℕ, zero, suc, ◌+◌, List, [], ◌∷◌, ◌++◌, Option, none, some, Bool, true, false, not, ◌&&◌, ◌||◌,
  length, get_elem?, set, Eq, list_eq, nat_eq, ◌==◌, if◌then◌else◌,
}
use pocket_mo_e.Prelude.Text.{Text, codes}

abbrev pub prefill : Text
prefill = codes "prefill"

abbrev pub decode : Text
decode = codes "decode"

pub record Request : Type 0 where
  pub request_id : ℕ
  pub prompt_tokens : List ℕ
  pub max_new_tokens : ℕ
  pub phase : Text
  pub kv_owned : Bool
  pub next_prefill_offset : ℕ

pub record Queues : Type 0 where
  pub requests : List Request
  pub decode_queue : List ℕ
  pub prefill_queue : List ℕ
  pub next_request_id : ℕ

abbrev pub empty : Queues
empty = record { requests = []; decode_queue = []; prefill_queue = []; next_request_id = 0 }

bool_beq : Bool → Bool → Bool
bool_beq true b = b
bool_beq false b = not b

-- the `==` that `@dataclass` generates: all fields
unfoldable pub request_beq : Request → Request → Bool
unfolding bool_beq
request_beq r s =
    r.request_id == s.request_id
    && (r.prompt_tokens == s.prompt_tokens
        && (r.max_new_tokens == s.max_new_tokens
            && (r.phase == s.phase
                && (bool_beq r.kv_owned s.kv_owned
                    && r.next_prefill_offset == s.next_prefill_offset))))

maybe_beq : Option Request → Option Request → Bool
unfolding request_beq
maybe_beq none o = false
maybe_beq (some r) none = false
maybe_beq (some r) (some s) = request_beq r s

-- how `deque.remove` compares two elements: by identity, then by `==`
unfoldable pub same_element : List Request → ℕ → ℕ → Bool
unfolding maybe_beq
same_element requests a b = a == b || maybe_beq (get_elem? requests a) (get_elem? requests b)

-- `queue.remove(request)` with its ValueError caught: the first equal element goes
unfoldable pub remove : List Request → ℕ → List ℕ → List ℕ
remove requests r [] = []
remove requests r (q ∷ qs) =
    let rest = remove requests r qs in if same_element requests q r then qs else q ∷ rest

update_at : (Request → Request) → Option Request → List Request → ℕ → List Request
update_at f none requests r = requests
update_at f (some old) requests r = set requests r (f old)

-- assignments to the fields of the request that `r` refers to
unfoldable pub update : (Request → Request) → ℕ → List Request → List Request
unfolding update_at
update f r requests = update_at f (get_elem? requests r) requests r

-- `submit`: the reference of the new request, beside the new state
unfoldable pub submit : List ℕ → ℕ → Queues → ℕ × Queues
submit prompt_tokens max_new_tokens s =
    let r = length s.requests in
    (
      r,
      record s {
        requests =
            s.requests
            ++ record {
              request_id = s.next_request_id;
              prompt_tokens = prompt_tokens;
              max_new_tokens = max_new_tokens;
              phase = prefill;
              kv_owned = false;
              next_prefill_offset = 0;
            }
              ∷ [];
        next_request_id = s.next_request_id + 1;
        prefill_queue = s.prefill_queue ++ r ∷ [];
      },
    )

is_empty : List ℕ → Bool
is_empty [] = true
is_empty (q ∷ qs) = false

-- `has_work`
unfoldable pub has_work : Queues → Bool
unfolding is_empty
has_work s = not (is_empty s.decode_queue) || not (is_empty s.prefill_queue)

first_prefill : List ℕ → Option (ℕ × Text)
first_prefill [] = none
first_prefill (q ∷ qs) = some (q, prefill)

first_decode : List ℕ → List ℕ → Option (ℕ × Text)
unfolding first_prefill
first_decode [] prefill_queue = first_prefill prefill_queue
first_decode (q ∷ qs) prefill_queue = some (q, decode)

-- `next_step`
unfoldable pub next_step : Queues → Option (ℕ × Text)
unfolding first_decode
next_step s = first_decode s.decode_queue s.prefill_queue

abbrev to_decode : Request → Request
to_decode r = record r { phase = decode; kv_owned = true }

abbrev release : Request → Request
release r = record r { kv_owned = false }

-- `mark_prefill_done`
unfoldable pub mark_prefill_done : ℕ → Queues → Queues
unfolding update
mark_prefill_done r s = record s {
  prefill_queue = remove s.requests r s.prefill_queue;
  requests = update to_decode r s.requests;
  decode_queue = s.decode_queue ++ r ∷ [];
}

-- `mark_request_done`
unfoldable pub mark_request_done : ℕ → Queues → Queues
unfolding update
mark_request_done r s = record s {
  decode_queue = remove s.requests r s.decode_queue;
  prefill_queue = remove s.requests r s.prefill_queue;
  requests = update release r s.requests;
}

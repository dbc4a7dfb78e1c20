-- ===== src/Scheduler/Laws/Queues.antt =====
-- The invariant of the two queues, and that every operation keeps it.
use native.Mathlib.Decide.{ℕ_discrete}
use pocket_mo_e.Prelude.{
  ℕ, ◌≡◌, ◌≢◌, ◌⊎◌, inl, inr, refl, sym, ◌∙◌, List, [], ◌∷◌, ◌++◌, some, Bool, true, false, arith,
  All, length, get_elem?, length-append, get_elem?-append_left, get_elem?-append_last,
  get_elem?-append_cases, get_elem?-lt, subst,
}
use pocket_mo_e.Prelude.Text.{Text}
use pocket_mo_e.Scheduler.{
  Request, Queues, empty, prefill, decode, submit, update, mark_prefill_done, mark_request_done,
}
use pocket_mo_e.Scheduler.Laws.Refs.{
  erase, has_ref, NotIn, Distinct, All-append, All-weaken, All-others, All-erase, All-has_ref,
  erase-Distinct, erase-NotIn, Distinct-append, Numbered, IsLive, remove-erase, get_elem?-update_ne,
  get_elem?-update_self, length-update,
}

-- the request is there, in the phase, and owns its KV cache or not
abbrev pub InPhase : Text → Bool → List Request → ℕ → Type 0
InPhase phase owned requests i =
    (r : Request) × (get_elem? requests i ≡ some r) × (r.phase ≡ phase) × (r.kv_owned ≡ owned)

abbrev pub Waiting : List Request → ℕ → Type 0
Waiting = InPhase prefill false

abbrev pub Running : List Request → ℕ → Type 0
Running = InPhase decode true

pub record IsWellFormed (s : Queues) : Type 0 where
  pub numbered : Numbered s.requests
  pub next_id : s.next_request_id ≡ length s.requests
  pub waiting : All (Waiting s.requests) s.prefill_queue
  pub running : All (Running s.requests) s.decode_queue
  pub waiting_once : Distinct s.prefill_queue
  pub running_once : Distinct s.decode_queue

pub empty-IsWellFormed : IsWellFormed empty
empty-IsWellFormed = record {
  numbered = λ i r h. absurd (cc);
  next_id = refl;
  waiting = tt;
  running = tt;
  waiting_once = tt;
  running_once = tt;
}

phase-IsLive :
    (phase : Text) (owned : Bool) (requests : List Request) (i : ℕ)
    → InPhase phase owned requests i
    → IsLive requests i
phase-IsLive phase owned requests i h = (h.0, h.1)

-- A write that keeps the number keeps the store numbered.
update-Numbered :
    (f : Request → Request) (requests : List Request) (r : ℕ)
    → ((x : Request) → (f x).request_id ≡ x.request_id)
    → IsLive requests r
    → Numbered requests
    → Numbered (update f r requests)
update-Numbered f requests r keep (old, found) num i x h = elim (ℕ_discrete i r) [
  | yes same ↦
      let at_r : get_elem? (update f r requests) i ≡ some (f old) =
        rw same (get_elem?-update_self f requests r found) in
      let e : x ≡ f old = cc (h, at_r) in rw (e, keep old, num r old found) (sym same)
  | no other ↦ num i x (sym (get_elem?-update_ne f requests r i other) ∙ h)
]

-- A write elsewhere leaves a request in its phase.
update-InPhase :
    (phase : Text) (owned : Bool) (f : Request → Request) (requests : List Request) (r i : ℕ)
    → i ≢ r
    → InPhase phase owned requests i
    → InPhase phase owned (update f r requests) i
update-InPhase phase owned f requests r i other (x, found, p, o) =
    (x, get_elem?-update_ne f requests r i other ∙ found, p, o)

prefill-ne-decode : prefill ≢ decode
prefill-ne-decode e = ground arith

-- no request is in two phases
NotIn-other_phase :
    (a b : Text) (x y : Bool) (requests : List Request) (r : ℕ) (qs : List ℕ)
    → a ≢ b
    → InPhase a x requests r
    → All (InPhase b y requests) qs
    → NotIn r qs
NotIn-other_phase a b x y requests r qs different (m, found, p, o) w =
    All-weaken qs
      (λ q (n, found', p', o') e.
        different (cc (p, p', found, subst (λ i. get_elem? requests i ≡ some n) e found')))
      w

-- a running request does not wait
pub running-NotIn-waiting :
    (r : ℕ) (s : Queues)
    → IsWellFormed s
    → has_ref r s.decode_queue ≡ true
    → NotIn r s.prefill_queue
running-NotIn-waiting r s v m =
    NotIn-other_phase decode prefill true false s.requests r s.prefill_queue
      (λ e. prefill-ne-decode (sym e))
      (All-has_ref (Running s.requests) r s.decode_queue v.running m) v.waiting

module _ (r : ℕ) (s : Queues) (v : IsWellFormed s) where
  -- In a well-formed state `mark_prefill_done` of a waiting request takes it out of the prefill
  -- queue, puts it at the end of the decode queue, and has it decode and own its cache.
  pub mark_prefill_done-queues :
      has_ref r s.prefill_queue ≡ true
      → ((mark_prefill_done r s).prefill_queue ≡ erase r s.prefill_queue)
        × ((mark_prefill_done r s).decode_queue ≡ s.decode_queue ++ r ∷ [])
        × Running (mark_prefill_done r s).requests r
  unfolding mark_prefill_done
  mark_prefill_done-queues m =
      let w = All-has_ref (Waiting s.requests) r s.prefill_queue v.waiting m in
      (
        remove-erase s.requests r s.prefill_queue v.numbered (w.0, w.1)
            (All-weaken s.prefill_queue (phase-IsLive prefill false s.requests) v.waiting),
        refl,
        (_, get_elem?-update_self _ s.requests r w.1, refl, refl),
      )

  pub mark_prefill_done-IsWellFormed :
      has_ref r s.prefill_queue ≡ true → IsWellFormed (mark_prefill_done r s)
  mark_prefill_done-IsWellFormed m =
      let w = All-has_ref (Waiting s.requests) r s.prefill_queue v.waiting m in
      let (left, joined, runs) = mark_prefill_done-queues m in
      let fresh =
        NotIn-other_phase prefill decode false true s.requests r s.decode_queue prefill-ne-decode w
          v.running in
      unfold mark_prefill_done in
      record {
        numbered = update-Numbered _ s.requests r (λ x. refl) (w.0, w.1) v.numbered;
        next_id = v.next_id ∙ sym (length-update _ s.requests r);
        waiting = rw left (
            All-others r (erase r s.prefill_queue) (update-InPhase prefill false _ s.requests r)
              (erase-NotIn r s.prefill_queue v.waiting_once)
              (All-erase (Waiting s.requests) r s.prefill_queue v.waiting));
        running =
            All-append (Running (mark_prefill_done r s).requests) s.decode_queue (r ∷ [])
              (All-others r s.decode_queue (update-InPhase decode true _ s.requests r) fresh
                v.running)
              (runs, tt);
        waiting_once = rw left (erase-Distinct r s.prefill_queue v.waiting_once);
        running_once = Distinct-append s.decode_queue r v.running_once fresh;
      }

  -- In a well-formed state `mark_request_done` of a request that waits or decodes takes it out of
  -- its queue, leaves the other requests in order, and the request is in neither queue afterwards.
  pub mark_request_done-queues :
      (has_ref r s.prefill_queue ≡ true) ⊎ (has_ref r s.decode_queue ≡ true)
      → ((mark_request_done r s).prefill_queue ≡ erase r s.prefill_queue)
        × ((mark_request_done r s).decode_queue ≡ erase r s.decode_queue)
        × NotIn r (mark_request_done r s).prefill_queue
        × NotIn r (mark_request_done r s).decode_queue
  unfolding mark_request_done
  mark_request_done-queues m =
      let live : IsLive s.requests r = elim m [
        | inl w ↦
            let x = All-has_ref (Waiting s.requests) r s.prefill_queue v.waiting w in (x.0, x.1)
        | inr w ↦
            let x = All-has_ref (Running s.requests) r s.decode_queue v.running w in (x.0, x.1)
      ] in
      let e1 =
        remove-erase s.requests r s.prefill_queue v.numbered live
          (All-weaken s.prefill_queue (phase-IsLive prefill false s.requests) v.waiting) in
      let e2 =
        remove-erase s.requests r s.decode_queue v.numbered live
          (All-weaken s.decode_queue (phase-IsLive decode true s.requests) v.running) in
      (
        e1,
        e2,
        rw e1 (erase-NotIn r s.prefill_queue v.waiting_once),
        rw e2 (erase-NotIn r s.decode_queue v.running_once),
      )

  pub mark_request_done-IsWellFormed :
      (has_ref r s.prefill_queue ≡ true) ⊎ (has_ref r s.decode_queue ≡ true)
      → IsWellFormed (mark_request_done r s)
  mark_request_done-IsWellFormed m =
      let live : IsLive s.requests r = elim m [
        | inl w ↦
            let x = All-has_ref (Waiting s.requests) r s.prefill_queue v.waiting w in (x.0, x.1)
        | inr w ↦
            let x = All-has_ref (Running s.requests) r s.decode_queue v.running w in (x.0, x.1)
      ] in
      let (left, left', _, _) = mark_request_done-queues m in
      unfold mark_request_done in
      record {
        numbered = update-Numbered _ s.requests r (λ x. refl) live v.numbered;
        next_id = v.next_id ∙ sym (length-update _ s.requests r);
        waiting = rw left (
            All-others r (erase r s.prefill_queue) (update-InPhase prefill false _ s.requests r)
              (erase-NotIn r s.prefill_queue v.waiting_once)
              (All-erase (Waiting s.requests) r s.prefill_queue v.waiting));
        running = rw left' (
            All-others r (erase r s.decode_queue) (update-InPhase decode true _ s.requests r)
              (erase-NotIn r s.decode_queue v.running_once)
              (All-erase (Running s.requests) r s.decode_queue v.running));
        waiting_once = rw left (erase-Distinct r s.prefill_queue v.waiting_once);
        running_once = rw left' (erase-Distinct r s.decode_queue v.running_once);
      }

append-InPhase :
    (phase : Text) (owned : Bool) (requests : List Request) (x : Request) (i : ℕ)
    → InPhase phase owned requests i
    → InPhase phase owned (requests ++ x ∷ []) i
append-InPhase phase owned requests x i (r, found, p, o) =
    (r, get_elem?-append_left requests (x ∷ []) i found, p, o)

append-Numbered :
    (requests : List Request) (x : Request)
    → x.request_id ≡ length requests
    → Numbered requests
    → Numbered (requests ++ x ∷ [])
append-Numbered requests x e num i r h = elim (get_elem?-append_cases requests x i h) [
  | inl old ↦ num i r old
  | inr new ↦ rw (new.1, new.0) e
]

pub submit-IsWellFormed :
    (tokens : List ℕ) (most : ℕ) (s : Queues)
    → IsWellFormed s
    → IsWellFormed (submit tokens most s).1
unfolding submit
submit-IsWellFormed tokens most s v = record {
  numbered = append-Numbered s.requests _ v.next_id v.numbered;
  next_id = omega (arith, v.next_id, length-append s.requests (new ∷ []));
  waiting =
      All-append (Waiting (s.requests ++ new ∷ [])) s.prefill_queue (length s.requests ∷ [])
        (All-weaken s.prefill_queue (append-InPhase prefill false s.requests new) v.waiting)
        ((new, get_elem?-append_last s.requests new, refl, refl), tt);
  running = All-weaken s.decode_queue (append-InPhase decode true s.requests new) v.running;
  waiting_once = Distinct-append s.prefill_queue (length s.requests) v.waiting_once (
      All-weaken s.prefill_queue
        (λ q (r, found, _, _) e. omega (arith, get_elem?-lt s.requests q found, e)) v.waiting);
  running_once = v.running_once;
}
  where
    new : Request
    new = record {
      request_id = s.next_request_id;
      prompt_tokens = tokens;
      max_new_tokens = most;
      phase = prefill;
      kv_owned = false;
      next_prefill_offset = 0;
    }

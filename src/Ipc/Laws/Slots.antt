-- ===== src/Ipc/Laws/Slots.antt =====
-- What the slots of the outputs hold, and what the ranks have read from them (components/moe/ipc.py).
use native.Mathlib.Nat.{div-add-mod, mul-le-mul_left}
use pocket_mo_e.Prelude.{
  ℕ, suc, ◌+◌, ◌*◌, ◌/◌, ◌%◌, ◌≤◌, ◌<◌, List, Option, some, get_elem?, inl, inr, ◌⊎◌, ◌≢◌, ◌≡◌,
  refl, ap, sym, subst, ◌∙◌, leb, leb→le, nat_eq, ◌==◌, beq_refl, beq-false, eq_of_beq, Bool-cases,
  arith,
}
use pocket_mo_e.Ipc.{Job, put, ack_cell}

pub put_same {ℓ} : {A : Type ℓ} (f : ℕ → A) (i : ℕ) (a : A) → put f i a i ≡ a
unfolding put
put_same f i a = rw (beq_refl i) refl

put_ne {ℓ} : {A : Type ℓ} (f : ℕ → A) (i j : ℕ) (a : A) → j ≢ i → put f i a j ≡ f j
unfolding put
put_ne f i j a n = rw (beq-false j i n) refl

pub put_cases {ℓ} :
    {A : Type ℓ} (f : ℕ → A) (i j : ℕ) (a : A) → ((j ≡ i) × (put f i a j ≡ a)) ⊎ (put f i a j ≡ f j)
unfolding put
put_cases f i j a = elim (Bool-cases (j == i)) [
  | inl t ↦ inl (eq_of_beq j i t, rw t refl)
  | inr n ↦ inr (rw n refl)
]

-- two functions changed at one place
put_both {ℓ κ μ} :
    {A : Type ℓ} {B : Type κ} (P : A → B → Type μ) (f : ℕ → A) (g : ℕ → B) (i : ℕ) (a : A) (b : B)
    → P a b
    → ((j : ℕ) → P (f j) (g j))
    → (j : ℕ) → P (put f i a j) (put g i b j)
unfolding put
put_both P f g i a b new old j = elim (Bool-cases (j == i)) [
  | inl t ↦ rw t new
  | inr n ↦ rw n (old j)
]

pub le_or_lt : (a b : ℕ) → (a ≤ b) ⊎ (b < a)
le_or_lt a b = elim (Bool-cases (leb a b)) [
  | inl t ↦ inl (leb→le a b t)
  | inr f ↦ inr (ground arith)
]

mod_ne : (s k n : ℕ) → k < n → n < k + s → k % s ≢ n % s
mod_ne s k n lt near e =
    let hk : s * (k / s) + k % s ≡ k = div-add-mod k s in
    let hn : s * (n / s) + n % s ≡ n = div-add-mod n s in
    elim (le_or_lt (n / s) (k / s)) [
      | inl le ↦
          let m : s * (n / s) ≤ s * (k / s) = mul-le-mul_left s le in omega (arith, m, hk, hn, e)
      | inr gt ↦
          let m : s * suc (k / s) ≤ s * (n / s) = mul-le-mul_left s gt in
          omega (arith, m, hk, hn, e)
    ]

-- The answers, and how far the ranks are: see `Step` for the arguments. `answered` is the response
-- of the header. A slot holds its answer until the request that is to use it next is claimed.
pub record Kept {T : Type 0} (run : Job T → T) (ranks slots world_size : ℕ) (outputs : ℕ → T)
    (acks : List ℕ) (jobs : ℕ → Job T) (claimed written answered : ℕ) (seen read acked : ℕ → ℕ)
    (got : ℕ → Option T) : Type 0 where
  pub acks_le :
      (slot rank a : ℕ)
      → 1 ≤ rank
      → rank < world_size
      → get_elem? acks (ack_cell ranks slot rank) ≡ some a
      → a ≤ acked rank
  pub acked_le : (rank : ℕ) → acked rank ≤ read rank
  pub read_le : (rank : ℕ) → read rank ≤ seen rank
  pub seen_le : (rank : ℕ) → seen rank ≤ answered
  pub claimed_le : (rank : ℕ) → 1 ≤ rank → rank < world_size → claimed ≤ acked rank + slots
  pub outputs_hold :
      (k : ℕ) → 1 ≤ k → k ≤ written → claimed < k + slots → outputs (k % slots) ≡ run (jobs k)
  pub got_hold : (rank : ℕ) → 1 ≤ read rank → got rank ≡ some (run (jobs (read rank)))

module _ {T : Type 0} {run : Job T → T} {ranks slots world_size : ℕ} {outputs : ℕ → T}
    {acks : List ℕ} {jobs : ℕ → Job T} {claimed written answered : ℕ} {seen read acked : ℕ → ℕ}
    {got : ℕ → Option T}
    (kept : Kept run ranks slots world_size outputs acks jobs claimed written answered seen read
      acked got) where
  pub Kept-job :
      (seq : ℕ) (job : Job T)
      → written < seq
      → answered < seq
      → Kept run ranks slots world_size outputs acks
          (put jobs seq job)
          claimed
          written
          answered
          seen
          read
          acked
          got
  Kept-job seq job later unanswered = record {
    acks_le = kept.acks_le;
    acked_le = kept.acked_le;
    read_le = kept.read_le;
    seen_le = kept.seen_le;
    claimed_le = kept.claimed_le;
    outputs_hold = λ k one le near.
        kept.outputs_hold k one le near ∙ ap run (sym (put_ne jobs seq k job (λ e. omega arith)));
    got_hold = λ rank one.
        kept.got_hold rank one
        ∙ ap (λ j. some (run j))
            (sym (
              put_ne jobs seq (read rank) job
                (λ e. omega (arith, kept.read_le rank, kept.seen_le rank))));
  }

  -- the slot of the request that is open holds anything
  pub Kept-part :
      (part : T)
      → claimed ≡ suc written
      → Kept run ranks slots world_size
          (put outputs (claimed % slots) part)
          acks
          jobs
          claimed
          written
          answered
          seen
          read
          acked
          got
  Kept-part part e = record {
    acks_le = kept.acks_le;
    acked_le = kept.acked_le;
    read_le = kept.read_le;
    seen_le = kept.seen_le;
    claimed_le = kept.claimed_le;
    outputs_hold = λ k one le near.
        put_ne outputs (claimed % slots) (k % slots) part
          (mod_ne slots k claimed (omega arith) near)
        ∙ kept.outputs_hold k one le near;
    got_hold = kept.got_hold;
  }

  -- the answer of the request that is open is written
  pub Kept-compute :
      claimed ≡ suc written
      → Kept run ranks slots world_size
          (put outputs (claimed % slots) (run (jobs claimed)))
          acks
          jobs
          claimed
          claimed
          answered
          seen
          read
          acked
          got
  Kept-compute e = record {
    acks_le = kept.acks_le;
    acked_le = kept.acked_le;
    read_le = kept.read_le;
    seen_le = kept.seen_le;
    claimed_le = kept.claimed_le;
    outputs_hold = λ k one le near. elim (le_or_lt claimed k) [
      | inl last ↦
          let same : claimed ≡ k = omega arith in
          subst (λ k. put outputs (claimed % slots) (run (jobs claimed)) (k % slots) ≡ run (jobs k))
            same (put_same outputs (claimed % slots) (run (jobs claimed)))
      | inr before ↦ (Kept-part (run (jobs claimed)) e).outputs_hold k one (omega arith) near
    ];
    got_hold = kept.got_hold;
  }

  pub Kept-answered :
      (seq : ℕ)
      → answered ≤ seq
      → Kept run ranks slots world_size outputs acks jobs claimed written seq seen read acked got
  Kept-answered seq le = record {
    acks_le = kept.acks_le;
    acked_le = kept.acked_le;
    read_le = kept.read_le;
    seen_le = λ rank. omega (arith, kept.seen_le rank);
    claimed_le = kept.claimed_le;
    outputs_hold = kept.outputs_hold;
    got_hold = kept.got_hold;
  }

  -- a rank sees an answer that is there
  pub Kept-see :
      (rank seq : ℕ)
      → read rank ≤ seq
      → seq ≤ answered
      → Kept run ranks slots world_size outputs acks jobs claimed written answered
          (put seen rank seq)
          read
          acked
          got
  Kept-see rank seq later le = record {
    acks_le = kept.acks_le;
    acked_le = kept.acked_le;
    read_le = λ r. elim (put_cases seen rank r seq) [
      | inl (same, e) ↦ omega (arith, e, ap read same)
      | inr e ↦ omega (arith, kept.read_le r, e)
    ];
    seen_le = λ r. elim (put_cases seen rank r seq) [
      | inl (same, e) ↦ omega (arith, e)
      | inr e ↦ omega (arith, kept.seen_le r, e)
    ];
    claimed_le = kept.claimed_le;
    outputs_hold = kept.outputs_hold;
    got_hold = kept.got_hold;
  }

  -- a rank copies in time the answer that it saw: it is that of its request
  pub Kept-copy :
      (rank seq : ℕ)
      → read rank ≤ seq
      → seq ≡ seen rank
      → seq ≤ written
      → claimed < seq + slots
      → Kept run ranks slots world_size outputs acks jobs claimed written answered seen
          (put read rank seq)
          acked
          (put got rank (some (outputs (seq % slots))))
  Kept-copy rank seq later e le near = record {
    acks_le = kept.acks_le;
    acked_le = λ r. elim (put_cases read rank r seq) [
      | inl (same, e) ↦ omega (arith, kept.acked_le r, e, ap read same)
      | inr e ↦ omega (arith, kept.acked_le r, e)
    ];
    read_le = λ r. elim (put_cases read rank r seq) [
      | inl (same, f) ↦ omega (arith, e, f, ap seen same)
      | inr f ↦ omega (arith, kept.read_le r, f)
    ];
    seen_le = kept.seen_le;
    claimed_le = kept.claimed_le;
    outputs_hold = kept.outputs_hold;
    got_hold =
        put_both (λ k g. 1 ≤ k → g ≡ some (run (jobs k))) read got rank seq
          (some (outputs (seq % slots))) (λ one. ap some (kept.outputs_hold seq one le near))
          kept.got_hold;
  }

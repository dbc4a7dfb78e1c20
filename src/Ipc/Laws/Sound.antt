-- ===== src/Ipc/Laws/Sound.antt =====
-- What holds of every world of the protocol (components/moe/ipc.py), in whatever order the processes
-- take their steps.
use pocket_mo_e.Prelude.{
  ℕ, suc, ◌+◌, ◌%◌, ◌≤◌, ◌<◌, some, ok, get_elem?, inl, inr, ◌≡◌, subst, set, Option-cases, arith,
}
use pocket_mo_e.Prelude.Int.{ℤ}
use pocket_mo_e.Ipc.{Memory, Job, ack, ack_cell, poll_response, poll_request}
use pocket_mo_e.Ipc.Protocol.{World, Client, Server}
use pocket_mo_e.Ipc.Laws.Turns.{Turn, Turn-le}
use pocket_mo_e.Ipc.Laws.Slots.{Kept}

pub polled :
    {T : Type 0} (slots seq slot : ℕ) (m : Memory T)
    → poll_response slots seq m ≡ some (ok slot)
    → seq ≤ m.response_seq
unfolding poll_response
polled slots seq slot m h = ground arith

pub taken :
    {T : Type 0} (last seq : ℕ) (layer : ℤ) (m : Memory T)
    → poll_request last m ≡ some (some (seq, layer))
    → (last < m.request_seq) × (m.request_seq ≡ seq) × (m.layer_id ≡ layer)
unfolding poll_request
taken last seq layer m h = ground arith

pub ack_cases :
    {T : Type 0} (ranks slots rank seq : ℕ) (m u : Memory T)
    → ack ranks slots rank seq m ≡ ok u
    → (old : ℕ) × (get_elem? m.acks (ack_cell ranks (seq % slots) rank) ≡ some old)
      × (record m { acks = set m.acks (ack_cell ranks (seq % slots) rank) seq } ≡ u)
unfolding ack
ack_cases ranks slots rank seq m u h =
    elim (Option-cases (get_elem? m.acks (ack_cell ranks (seq % slots) rank))) [
      | inl e ↦ absurd (ground (arith, e, h))
      | inr (old, e) ↦ (old, e, ground (arith, e, h))
    ]

module _ {T : Type 0} (run : Job T → T) (ranks slots world_size : ℕ) where
  -- What holds of every world.
  pub record IsSound (w : World T) : Type 0 where
    pub turn : Turn w.memory w.jobs w.claimed w.written w.client w.server
    pub kept :
        Kept run ranks slots world_size w.memory.outputs w.memory.acks w.jobs w.claimed w.written
          w.memory.response_seq w.seen w.read w.acked w.got

  pub client_at :
      {w : World T} {c : Client T}
      → IsSound w
      → w.client ≡ c
      → Turn w.memory w.jobs w.claimed w.written c w.server
  client_at {w} s e = subst (λ c. Turn w.memory w.jobs w.claimed w.written c w.server) e s.turn

  pub server_at :
      {w : World T} {c : Server T}
      → IsSound w
      → w.server ≡ c
      → Turn w.memory w.jobs w.claimed w.written w.client c
  server_at {w} s e = subst (λ c. Turn w.memory w.jobs w.claimed w.written w.client c) e s.turn

  -- the answer that a rank saw is there, and its slot is not used again yet
  pub seen_in_time :
      {w : World T} (rank : ℕ)
      → IsSound w
      → 1 ≤ rank
      → rank < world_size
      → w.seen rank ≡ suc (w.read rank)
      → (w.read rank < w.memory.response_seq)
        × (suc (w.read rank) ≤ w.written)
        × (w.claimed < suc (w.read rank) + slots)
  seen_in_time rank s one lt e = (
    omega (arith, s.kept.seen_le rank),
    omega (arith, s.kept.seen_le rank, Turn-le s.turn),
    omega (arith, s.kept.claimed_le rank one lt, s.kept.acked_le rank),
  )

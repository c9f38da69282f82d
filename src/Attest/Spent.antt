-- ===== src/Attest/Spent.antt =====
-- services/ingest/internal/attest/attest.go: runs of Issue and Consume, and how often a challenge is
-- spent in them.
use event_tracking.Prelude.{
  String, ◌≡◌, ◌≢◌, arith, true, false, Option, none, some, eq_iff, inl, inr, Bool-cases,
  Option-cases,
}
use event_tracking.Attest.{Cells, IsCells, challenge_key, matches, issue, consume}

of_matches : (o : Option (Option String)) (x : String) → matches o x ≡ true → o ≡ some (some x)
of_matches none x h = absurd (ground arith)
of_matches (some none) x h = absurd (ground arith)
of_matches (some (some got)) x h = ground (arith, eq_iff got x)

module _ (r : Cells) (l : IsCells r) (c p nonce : String) (s : r.Server) where
  consume_got :
      (consume r c p nonce s).0 ≡ true
      → ((r.get_del (challenge_key c p) s).0 ≡ some (some nonce))
        × ((consume r c p nonce s).1 ≡ (r.get_del (challenge_key c p) s).1)
  unfolding consume
  consume_got h = ground (arith, of_matches (r.get_del (challenge_key c p) s).0 nonce)

  consume_found : (consume r c p nonce s).0 ≡ true → l.held s (challenge_key c p) ≡ some nonce
  consume_found h =
      ground (
        arith,
        consume_got h,
        l.get_del_answer (challenge_key c p) (some nonce) s (consume_got h).0,
      )

  consume_removed :
      (consume r c p nonce s).0 ≡ true
      → l.held (consume r c p nonce s).1 (challenge_key c p) ≢ some nonce
  consume_removed h = rw (consume_got h).1 (
      ground (
        arith,
        (consume_got h).0,
        l.get_del_held (challenge_key c p) (challenge_key c p) s,
        eq_iff (challenge_key c p) (challenge_key c p),
      ))

module _ (r : Cells) (key nonce : String) where
  -- `Runs s t`: calls of Issue and Consume, by anyone and for anyone, lead from `s` to `t`, and none
  -- that issues under `key` draws `nonce`.
  pub data Runs (s : r.Server) : r.Server → Type 0 where
    start : Runs s s
    issued :
        {t u : r.Server}
        → Runs s t
        → (client_id platform : String)
        → (challenge_key client_id platform ≡ key → r.random_text t ≢ some nonce)
        → u ≡ (issue r client_id platform t).1
        → Runs s u
    consumed :
        {t u : r.Server}
        → Runs s t
        → (client_id platform challenge : String) → u ≡ (consume r client_id platform challenge t).1
        → Runs s u

  module _ (l : IsCells r) where
    issue_held :
        (c p : String) (t : r.Server)
        → (challenge_key c p ≡ key → r.random_text t ≢ some nonce)
        → l.held t key ≢ some nonce
        → l.held (issue r c p t).1 key ≢ some nonce
    unfolding issue
    issue_held c p t fresh h = elim (Option-cases (r.random_text t)) [
      | inl e ↦ ground arith
      | inr (v, e) ↦
          ground (arith, l.set_held (challenge_key c p) key v t, eq_iff (challenge_key c p) key)
    ]

    consume_held :
        (c p x : String) (t : r.Server)
        → l.held t key ≢ some nonce
        → l.held (consume r c p x t).1 key ≢ some nonce
    unfolding consume
    consume_held c p x t h = ground (arith, l.get_del_held (challenge_key c p) key t)

    Runs-held : (s t : r.Server) → l.held s key ≢ some nonce → Runs s t → l.held t key ≢ some nonce
    Runs-held s t h start = h
    Runs-held s t h (issued {t = t'} run c p fresh e) =
        rw e (issue_held c p t' fresh (Runs-held s t' h run))
    Runs-held s t h (consumed {t = t'} run c p x e) =
        rw e (consume_held c p x t' (Runs-held s t' h run))

-- A challenge that was consumed is not consumed again, whatever calls come between, unless the
-- random source draws it once more for the same key.
pub consume_once :
    (r : Cells) (l : IsCells r) (c p nonce : String) (s t : r.Server)
    → (consume r c p nonce s).0 ≡ true
    → Runs r (challenge_key c p) nonce (consume r c p nonce s).1 t
    → (consume r c p nonce t).0 ≡ false
consume_once r l c p nonce s t h run = elim (Bool-cases (consume r c p nonce t).0) [
  | inl again ↦ absurd (
      Runs-held r (challenge_key c p) nonce l (consume r c p nonce s).1 t
        (consume_removed r l c p nonce s h) run (consume_found r l c p nonce t again))
  | inr f ↦ f
]

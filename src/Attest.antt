-- ===== src/Attest.antt =====
-- services/ingest/internal/attest/attest.go: one-time attestation challenges
pub mod Spent
use event_tracking.Prelude.{
  ℕ, String, ◌≡◌, Bool, true, false, ◌&&◌, ◌||◌, Option, none, some, ◌==◌, ◌⊎◌, if◌then◌else◌,
}
use event_tracking.Prelude.Text.{◌+++◌}

-- Redis strings, as SET and GETDEL see them, and the randomness of a server process. Neither is part
-- of the repository. `none` and `false` are errors; `get_del` answers the value that was held.
pub record Cells : Type 1 where
  pub Server : Type 0
  pub random_text : Server → Option String
  pub set : String → String → Server → Bool × Server
  pub get_del : String → Server → Option (Option String) × Server

-- Verify of Noop, which says of no attestation that it is good; `none` stands for its `false`.
abbrev pub noop : String → String → String → Option String
noop platform attestation challenge = none

unfoldable pub challenge_key : String → String → String
challenge_key client_id platform = "att:{" +++ client_id +++ "}:" +++ platform

-- `err == nil && got == challenge`, where a missing value is an error
abbrev pub matches : Option (Option String) → String → Bool
matches (some (some got)) challenge = got == challenge
matches _ challenge = false

module _ (r : Cells) where
  -- Issue; `none` is its error
  unfoldable pub issue : String → String → r.Server → Option String × r.Server
  issue client_id platform s = elim (r.random_text s) [
    | none ↦ (none, s)
    | some nonce ↦
        let (done, s') = r.set (challenge_key client_id platform) nonce s in
        if done then (some nonce, s') else (none, s')
  ]

  unfoldable pub consume : String → String → String → r.Server → Bool × r.Server
  consume client_id platform challenge s =
      let (got, s') = r.get_del (challenge_key client_id platform) s in
      if challenge == "" then (false, s) else (matches got challenge, s')

  -- What Redis documents of the two commands; one that fails has run or has not.
  pub record IsCells : Type 0 where
    pub held : r.Server → String → Option String
    pub set_held :
        (k j v : String) (s : r.Server)
        → (held (r.set k v s).1 j ≡ (if k == j then some v else held s j))
          ⊎ (((r.set k v s).0 ≡ false) × (held (r.set k v s).1 j ≡ held s j))
    pub get_del_held :
        (k j : String) (s : r.Server)
        → (held (r.get_del k s).1 j ≡ (if k == j then none else held s j))
          ⊎ (((r.get_del k s).0 ≡ none) × (held (r.get_del k s).1 j ≡ held s j))
    pub get_del_answer :
        (k : String) (o : Option String) (s : r.Server) → (r.get_del k s).0 ≡ some o → o ≡ held s k

-- ===== src/Repo/Action.antt =====
-- Operations that change the repository and may throw. What was written before a throw stays
-- written, so the repository comes back beside an error too.
use cpp_data_protection_core.Common.Error.{Result, ok, err}
use cpp_data_protection_core.Repo.{Repo}

abbrev pub Action {ℓ} : Type ℓ → Type ℓ
Action A = Repo → Result A × Repo

module _ {ℓ} {A : Type ℓ} where
  abbrev pub pure : A → Action A
  pure a repo = (ok a, repo)

  -- A computation that only reads.
  abbrev pub query : (Repo → Result A) → Action A
  query f repo = (f repo, repo)

  abbrev pub lift : Result A → Action A
  lift r repo = (r, repo)

module _ {ℓ} {A B : Type ℓ} where
  abbrev pub go_on : Result A → (A → Action B) → Action B
  go_on (ok a) f repo = f a repo
  go_on (err e) f repo = (err e, repo)

  infixl 5 ◌>>=◌
  abbrev pub ◌>>=◌ : Action A → (A → Action B) → Action B
  (m >>= f) repo = go_on (m repo).0 f (m repo).1

  infixl 5 ◌>>◌
  abbrev pub ◌>>◌ : Action A → Action B → Action B
  (m >> k) repo = go_on (m repo).0 (λ _. k) (m repo).1

-- A write that cannot fail.
abbrev pub modify : (Repo → Repo) → Action (Unit {0})
modify f repo = (ok tt, f repo)

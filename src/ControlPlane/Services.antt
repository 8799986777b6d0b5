-- ===== src/ControlPlane/Services.antt =====
-- What the services of internal/controlplane/service are given besides the database.
use sheeld.Prelude.{Str, String, ◌≡◌, refl, ap}
use sheeld.Prelude.Outcome.{Outcome, ok, err}
use sheeld.Guard.{Guard}
use sheeld.Transform.{Transformer}
use sheeld.Registry.{Registry}
use sheeld.ControlPlane.{Database, Result}

-- The outcome of a check.
abbrev pub Checked : Type 0
Checked = Outcome {0} Unit

-- The registries; `crypto.Encrypt` with the server's key, and `urlpolicy.ValidatePublicHTTPURL`, which
-- stand on the cipher, the URL parser and the resolver of the standard library; `strings.ToLower`; the hexadecimal SHA-256 of
-- a key.
pub record Environment : Type 0 where
  pub guards : Registry Guard
  pub transformers : Registry Transformer
  pub encrypt : Str → Outcome Str
  pub check_url : Str → Checked
  pub to_lower : Str → Str
  pub digest : Str → String

-- A check that reads no row: an error returns at once, with the database as it was.
abbrev pub after {ℓ} : {A : Type ℓ} {B : Type 0} → Outcome A → Database → (A → Result B) → Result B
after (ok a) db k = k a
after (err e) db k = (err e, db)

-- What holds of the database and after every continuation holds at the end.
pub after-holds {ℓ κ} :
    {A : Type ℓ} {B : Type 0} (P : Database → Type κ) (db : Database) (m : Outcome A)
    (k : A → Result B)
    → P db
    → ((a : A) → P (k a).1)
    → P (after m db k).1
after-holds P db (ok a) k h w = w a
after-holds P db (err e) k h w = h

-- A successful sequence is a successful check, then a successful continuation.
pub after-ok {ℓ} :
    {A : Type ℓ} {B : Type 0} (m : Outcome A) (db db' : Database) (k : A → Result B) (b : B)
    → after m db k ≡ (ok b, db')
    → (a : A) × (m ≡ ok a) × (k a ≡ (ok b, db'))
after-ok (ok a) db db' k b h = (a, refl, h)
after-ok (err e) db db' k b h = absurd (cc (ap (λ r. r.0) h))

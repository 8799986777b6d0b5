-- ===== src/ControlPlane/Queries/Users.antt =====
-- internal/controlplane/db/generated: the queries on organizations and users.
use sheeld.Prelude.{
  ℕ, ◌==◌, nat_eq, string_eq, ◌||◌, not, if◌then◌else◌, String, [], ◌∷◌, ◌++◌, find, exists,
}
use sheeld.Prelude.Outcome.{Outcome, ok, err}
use sheeld.ControlPlane.{Organization, User, Database, Result}
use sheeld.ControlPlane.Queries.{one, duplicate_key, missing_reference, has_org}

unfoldable pub create_organization : Organization → Database → Result Organization
create_organization new db =
    if has_org new.id db
    then (err duplicate_key, db)
    else (ok new, record db { organizations = db.organizations ++ new ∷ [] })

unfoldable pub get_organization : ℕ → Database → Outcome Organization
get_organization id db = one (find (λ o. o.id == id) db.organizations)

-- `email` is UNIQUE over all organizations.
unfoldable pub create_user : User → Database → Result User
create_user new db =
    if not (has_org new.org_id db)
    then (err missing_reference, db)
    else if exists (λ u. (u.id == new.id) || (u.email == new.email)) db.users
    then (err duplicate_key, db)
    else (ok new, record db { users = db.users ++ new ∷ [] })

unfoldable pub get_user_by_email : String → Database → Outcome User
get_user_by_email email db = one (find (λ u. u.email == email) db.users)

unfoldable pub get_user_by_id : ℕ → Database → Outcome User
get_user_by_id id db = one (find (λ u. u.id == id) db.users)

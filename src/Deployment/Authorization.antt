-- ===== src/Deployment/Authorization.antt =====
-- deployment/authorization.py: the permissions of each role.
use skysolver.Prelude.{
  ℕ, String, ◌≡◌, refl, inl, inr, Bool, false, ◌&&◌, Option, none, some, List, [], ◌∷◌,
  if◌then◌else◌, ◌==◌, nat_eq, string_eq, pair_eq, Option-cases, any,
}

pub data Role : Type 0 where
  scheduler duty_manager deployment_controller recovery_manager supervisor_read_only
        demo_scheduler :
      Role

pub data Permission : Type 0 where
  read propose validate approve deploy override : Permission

abbrev pub permission_code : Permission → ℕ
permission_code read = 0
permission_code propose = 1
permission_code validate = 2
permission_code approve = 3
permission_code deploy = 4
permission_code override = 5

-- `Role(role)`, with the error of an unknown name as `none`.
unfoldable pub role_named : String → Option Role
role_named s =
    if s == "scheduler"
    then some scheduler
    else if s == "duty-manager"
    then some duty_manager
    else if s == "deployment-controller"
    then some deployment_controller
    else if s == "recovery-manager"
    then some recovery_manager
    else if s == "supervisor-read-only"
    then some supervisor_read_only
    else if s == "scheduler-demo"
    then some demo_scheduler
    else none

-- `ROLE_PERMISSIONS`
abbrev pub role_permissions : Role → List Permission
role_permissions scheduler = read ∷ propose ∷ validate ∷ []
role_permissions demo_scheduler = read ∷ propose ∷ validate ∷ []
role_permissions duty_manager = read ∷ validate ∷ approve ∷ override ∷ []
role_permissions deployment_controller = read ∷ deploy ∷ []
role_permissions recovery_manager = read ∷ propose ∷ validate ∷ []
role_permissions supervisor_read_only = read ∷ []

abbrev pub grants : List Permission → Permission → Bool
grants ps p = any (λ q. permission_code q == permission_code p) ps

unfoldable pub allows : String → Permission → Bool
unfolding role_named
allows role p = elim (role_named role) [ none ↦ false | some r ↦ grants (role_permissions r) p ]

role_apart :
    (r : Role)
    → ((grants (role_permissions r) propose && grants (role_permissions r) approve) ≡ false)
      × ((grants (role_permissions r) approve && grants (role_permissions r) deploy) ≡ false)
      × ((grants (role_permissions r) propose && grants (role_permissions r) deploy) ≡ false)
role_apart scheduler = (refl, refl, refl)
role_apart demo_scheduler = (refl, refl, refl)
role_apart duty_manager = (refl, refl, refl)
role_apart deployment_controller = (refl, refl, refl)
role_apart recovery_manager = (refl, refl, refl)
role_apart supervisor_read_only = (refl, refl, refl)

unknown_role : (role : String) (p : Permission) → role_named role ≡ none → allows role p ≡ false
unfolding allows
unknown_role role p h = rw (h, allows) refl

known_role :
    (role : String) (r : Role) (p : Permission)
    → role_named role ≡ some r
    → allows role p ≡ grants (role_permissions r) p
unfolding allows
known_role role r p h = rw (h, allows) refl

-- No role, known or not, may do two of the three steps of a recovery: whoever may propose may neither
-- approve nor deploy, and whoever may approve may not deploy.
pub duties_apart :
    (role : String)
    → ((allows role propose && allows role approve) ≡ false)
      × ((allows role approve && allows role deploy) ≡ false)
      × ((allows role propose && allows role deploy) ≡ false)
duties_apart role = elim (Option-cases (role_named role)) [
  | inl unknown ↦ (
    rw (unknown_role role propose unknown) refl,
    rw (unknown_role role approve unknown) refl,
    rw (unknown_role role propose unknown) refl,
  )
  | inr (r, known) ↦
      let (a, b, c) = role_apart r in
      (
        rw (known_role role r propose known, known_role role r approve known) a,
        rw (known_role role r approve known, known_role role r deploy known) b,
        rw (known_role role r propose known, known_role role r deploy known) c,
      )
]

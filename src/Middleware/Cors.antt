-- ===== src/Middleware/Cors.antt =====
-- internal/middleware/cors.go
use todo_chat_app.Prelude.{
  ◌≡◌, refl, inl, inr, Bool, true, false, String, List, [], ◌∷◌, ◌++◌, Has, str_eq, Bool-cases,
  if◌then◌else◌,
}
use todo_chat_app.Prelude.Text.{trim_space, is_empty}
use todo_chat_app.Middleware.Rbac.{contains}

-- The headers that the handler sets, and their values.
pub data Header : Type 0 where
  allow_origin allow_credentials vary allow_methods allow_headers : Header

pub data Passing : Type 0 where
  goes_on no_content : Passing

-- The set `allowed`: the trimmed origins that are not empty.
abbrev pub allowed_of : List String → List String
allowed_of [] = []
allowed_of (o ∷ os) =
    let rest = allowed_of os in if is_empty (trim_space o) then rest else trim_space o ∷ rest

abbrev pub allows_all : List String → Bool
allows_all [] = true
allows_all (o ∷ os) = false

unfoldable pub origin_headers : List String → String → List (Header × String)
origin_headers allowed origin =
    if is_empty origin
    then []
    else if allows_all allowed
    then (allow_origin, "*") ∷ []
    else if contains allowed origin
    then (allow_origin, origin) ∷ (allow_credentials, "true") ∷ (vary, "Origin") ∷ []
    else []

abbrev pub preflight_headers : List (Header × String)
preflight_headers =
    (allow_methods, "GET, POST, PATCH, DELETE, OPTIONS")
    ∷ (allow_headers, "Authorization, Content-Type")
    ∷ []

-- The allowlist, the request's `Origin`, and its method.
unfoldable pub cors : List String → String → String → List (Header × String) × Passing
cors origins origin method =
    let sent = origin_headers (allowed_of origins) origin in
    if str_eq method "OPTIONS" then (sent ++ preflight_headers, no_content) else (sent, goes_on)

-- The header that permits credentials is among those sent.
abbrev pub Permits : List (Header × String) → Type 0
Permits hs = Has (allow_credentials, "true") hs

choice-Permits :
    (empty all listed : Bool) (origin : String)
    → Permits (
        if empty
        then []
        else if all
        then (allow_origin, "*") ∷ []
        else if listed
        then (allow_origin, origin) ∷ (allow_credentials, "true") ∷ (vary, "Origin") ∷ []
        else [])
    → (empty ≡ false) × (all ≡ false) × (listed ≡ true)
choice-Permits true all listed origin h = absurd h
choice-Permits false true listed origin (inl e) = cc
choice-Permits false true listed origin (inr e) = absurd e
choice-Permits false false true origin h = (refl, refl, refl)
choice-Permits false false false origin h = absurd h

origin_headers-Permits :
    (allowed : List String) (origin : String)
    → Permits (origin_headers allowed origin)
    → (contains allowed origin ≡ true) × Has (allow_origin, origin) (origin_headers allowed origin)
unfolding origin_headers
origin_headers-Permits allowed origin h =
    let (filled, some_listed, listed) =
      choice-Permits (is_empty origin) (allows_all allowed) (contains allowed origin) origin h in
    (listed, rw (filled, some_listed, listed) (inl refl))

not_preflight : (sent : List (Header × String)) → Permits (sent ++ preflight_headers) → Permits sent
not_preflight [] (inl e) = cc
not_preflight [] (inr (inl e)) = cc
not_preflight [] (inr (inr e)) = absurd e
not_preflight (x ∷ sent) (inl e) = inl e
not_preflight (x ∷ sent) (inr h) = inr (not_preflight sent h)

still_there :
    (x : Header × String) (sent more : List (Header × String)) → Has x sent → Has x (sent ++ more)
still_there x [] more h = absurd h
still_there x (y ∷ sent) more (inl e) = inl e
still_there x (y ∷ sent) more (inr h) = inr (still_there x sent more h)

-- The answer permits credentials only for an origin that the trimmed allowlist names, and then names
-- this very origin as the allowed one.
pub cors-Permits :
    (origins : List String) (origin method : String)
    → Permits (cors origins origin method).0
    → (contains (allowed_of origins) origin ≡ true)
      × Has (allow_origin, origin) (cors origins origin method).0
unfolding cors
cors-Permits origins origin method h = elim (Bool-cases (str_eq method "OPTIONS")) [
  | inl options ↦
      let (listed, named) =
        origin_headers-Permits (allowed_of origins) origin (not_preflight _ (rw options at h)) in
      (listed, rw options (still_there _ _ preflight_headers named))
  | inr other ↦ rw other (origin_headers-Permits (allowed_of origins) origin (rw other at h))
]

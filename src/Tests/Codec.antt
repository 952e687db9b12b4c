-- ===== src/Tests/Codec.antt =====
-- A code for texts, numbers, lists and records: texts are written with a mark before every character
-- and one at the end, numbers as texts of their length, lists after their lengths.
use Prim.Native.Char.{Char, code}
use Prim.Native.String.{String, [], ◌∷◌}
use go_oauth_client_credenti.Common.{
  ◌≡◌, refl, ℕ, zero, suc, Bool, true, false, Option, none, some, eqb, if◌then◌else◌, arith, List,
}
use go_oauth_client_credenti.Common.Int.{ℤ, pos, negsuc}
use go_oauth_client_credenti.Oauth2.Types.{
  RegisterClientRequest, RegisterClientResponse, TokenResponse, IntrospectResponse,
}

unfoldable write : String → String → String
write [] rest = "." ∷ rest
write (c ∷ s) rest = "x" ∷ (c ∷ write s rest)

unfoldable before : Char → Option (String × String) → Option (String × String)
before c none = none
before c (some (s, rest)) = some (c ∷ s, rest)

unfoldable read : String → Option (String × String)
read [] = none
read (mark ∷ []) = if eqb (code mark) 46 then some ([], []) else none
read (mark ∷ (c ∷ rest)) =
    let more = before c (read rest) in if eqb (code mark) 46 then some ([], c ∷ rest) else more

read-write : (s rest : String) → read (write s rest) ≡ some (s, rest)
unfolding read write before
read-write [] [] = refl
read-write [] (c ∷ rest) = refl
read-write (c ∷ s) rest = rw (read-write s rest) refl

unfoldable marks : ℕ → String
marks zero = []
marks (suc n) = "x" ∷ marks n

unfoldable pub size : String → ℕ
size [] = zero
size (c ∷ s) = suc (size s)

size-marks : (n : ℕ) → size (marks n) ≡ n
unfolding size marks
size-marks zero = refl
size-marks (suc n) = rw (size-marks n) refl

unfoldable write_number : ℤ → String → String
write_number (pos n) rest = "+" ∷ write (marks n) rest
write_number (negsuc n) rest = "-" ∷ write (marks n) rest

unfoldable signed : Char → Option (String × String) → Option (ℤ × String)
signed sign none = none
signed sign (some (s, rest)) =
    some (if eqb (code sign) 43 then pos (size s) else negsuc (size s), rest)

unfoldable read_number : String → Option (ℤ × String)
read_number [] = none
read_number (sign ∷ s) = signed sign (read s)

read_number-write_number :
    (n : ℤ) (rest : String) → read_number (write_number n rest) ≡ some (n, rest)
unfolding read_number write_number signed
read_number-write_number (pos n) rest = rw (read-write (marks n) rest, size-marks n) refl
read_number-write_number (negsuc n) rest = rw (read-write (marks n) rest, size-marks n) refl

pub write_response : TokenResponse → String
write_response r =
    write r.access_token
      (write r.token_type (write_number r.expires_in (write r.resource (write r.scope []))))

pub read_response : String → Option TokenResponse
read_response s = elim (read s) [
  | none ↦ none
  | some (access_token, s) ↦ elim (read s) [
    | none ↦ none
    | some (token_type, s) ↦ elim (read_number s) [
      | none ↦ none
      | some (expires_in, s) ↦ elim (read s) [
        | none ↦ none
        | some (resource, s) ↦ elim (read s) [
          | none ↦ none
          | some (scope, _) ↦ some (record {
            access_token = access_token;
            token_type = token_type;
            expires_in = expires_in;
            resource = resource;
            scope = scope;
          })
        ]
      ]
    ]
  ]
]

pub read-write_response : (r : TokenResponse) → read_response (write_response r) ≡ some r
unfolding read_response write_response
read-write_response r =
    let s4 = write r.scope [] in
    let s3 = write r.resource s4 in
    let s2 = write_number r.expires_in s3 in
    let s1 = write r.token_type s2 in
    ground (
      arith,
      read-write r.access_token s1,
      read-write r.token_type s2,
      read_number-write_number r.expires_in s3,
      read-write r.resource s4,
      read-write r.scope [],
    )

unfoldable write_all : List String → String → String
write_all List.[] rest = rest
write_all (List.◌∷◌ s l) rest = write s (write_all l rest)

unfoldable add : String → Option (List String × String) → Option (List String × String)
add s none = none
add s (some (l, rest)) = some (List.◌∷◌ s l, rest)

unfoldable read_all : ℕ → String → Option (List String × String)
read_all zero s = some (List.[], s)
read_all (suc n) s = elim (read s) [ none ↦ none | some (a, rest) ↦ add a (read_all n rest) ]

unfoldable count : List String → ℕ
count List.[] = zero
count (List.◌∷◌ s l) = suc (count l)

read_all-write_all :
    (l : List String) (rest : String) → read_all (count l) (write_all l rest) ≡ some (l, rest)
unfolding read_all write_all add count
read_all-write_all List.[] rest = refl
read_all-write_all (List.◌∷◌ s l) rest =
    rw (read_all, read-write s (write_all l rest), read_all-write_all l rest) refl

unfoldable write_list : List String → String → String
write_list l rest = write (marks (count l)) (write_all l rest)

unfoldable read_list : String → Option (List String × String)
read_list s = elim (read s) [ none ↦ none | some (n, rest) ↦ read_all (size n) rest ]

read_list-write_list :
    (l : List String) (rest : String) → read_list (write_list l rest) ≡ some (l, rest)
unfolding read_list write_list
read_list-write_list l rest =
    rw (read_list, read-write (marks (count l)) (write_all l rest), size-marks (count l))
      (read_all-write_all l rest)

unfoldable write_bool : Bool → String → String
write_bool true rest = "+" ∷ rest
write_bool false rest = "-" ∷ rest

unfoldable read_bool : String → Option (Bool × String)
read_bool [] = none
read_bool (c ∷ s) = some (eqb (code c) 43, s)

read_bool-write_bool : (b : Bool) (rest : String) → read_bool (write_bool b rest) ≡ some (b, rest)
unfolding read_bool write_bool
read_bool-write_bool true rest = refl
read_bool-write_bool false rest = refl

pub write_register : RegisterClientRequest → String
write_register r = write r.name (write_list r.allowed_resources (write_list r.allowed_scopes []))

pub read_register : String → Option RegisterClientRequest
read_register s = elim (read s) [
  | none ↦ none
  | some (name, s) ↦ elim (read_list s) [
    | none ↦ none
    | some (resources, s) ↦ elim (read_list s) [
      | none ↦ none
      | some (scopes, _) ↦
          some (record { name = name; allowed_resources = resources; allowed_scopes = scopes })
    ]
  ]
]

pub read_register-write_register :
    (r : RegisterClientRequest) → read_register (write_register r) ≡ some r
unfolding read_register write_register
read_register-write_register r =
    let s2 = write_list r.allowed_scopes [] in
    let s1 = write_list r.allowed_resources s2 in
    ground (
      arith,
      read-write r.name s1,
      read_list-write_list r.allowed_resources s2,
      read_list-write_list r.allowed_scopes [],
    )

pub write_registered : RegisterClientResponse → String
write_registered r = write r.client_id (
    write r.client_secret (
      write_number r.created_at
        (write r.name (write_list r.allowed_resources (write_list r.allowed_scopes [])))))

pub read_registered : String → Option RegisterClientResponse
read_registered s = elim (read s) [
  | none ↦ none
  | some (client_id, s) ↦ elim (read s) [
    | none ↦ none
    | some (client_secret, s) ↦ elim (read_number s) [
      | none ↦ none
      | some (created_at, s) ↦ elim (read_register s) [
        | none ↦ none
        | some r ↦ some (record {
          client_id = client_id;
          client_secret = client_secret;
          name = r.name;
          allowed_resources = r.allowed_resources;
          allowed_scopes = r.allowed_scopes;
          created_at = created_at;
        })
      ]
    ]
  ]
]

pub read_registered-write_registered :
    (r : RegisterClientResponse) → read_registered (write_registered r) ≡ some r
unfolding read_registered write_registered write_register
read_registered-write_registered r =
    let q : RegisterClientRequest = record {
      name = r.name;
      allowed_resources = r.allowed_resources;
      allowed_scopes = r.allowed_scopes;
    } in
    let s3 = write_register q in
    let s2 = write_number r.created_at s3 in
    let s1 = write r.client_secret s2 in
    ground (
      arith,
      read-write r.client_id s1,
      read-write r.client_secret s2,
      read_number-write_number r.created_at s3,
      read_register-write_register q,
    )

pub write_description : IntrospectResponse → String
write_description r = write_bool r.active (
    write r.client_id
      (write_number r.exp (write r.resource (write r.scope (write r.token_type [])))))

pub read_description : String → Option IntrospectResponse
read_description s = elim (read_bool s) [
  | none ↦ none
  | some (active, s) ↦ elim (read s) [
    | none ↦ none
    | some (client_id, s) ↦ elim (read_number s) [
      | none ↦ none
      | some (exp, s) ↦ elim (read s) [
        | none ↦ none
        | some (resource, s) ↦ elim (read s) [
          | none ↦ none
          | some (scope, s) ↦ elim (read s) [
            | none ↦ none
            | some (token_type, _) ↦ some (record {
              active = active;
              client_id = client_id;
              resource = resource;
              scope = scope;
              exp = exp;
              token_type = token_type;
            })
          ]
        ]
      ]
    ]
  ]
]

pub read_description-write_description :
    (r : IntrospectResponse) → read_description (write_description r) ≡ some r
unfolding read_description write_description
read_description-write_description r =
    let s5 = write r.token_type [] in
    let s4 = write r.scope s5 in
    let s3 = write r.resource s4 in
    let s2 = write_number r.exp s3 in
    let s1 = write r.client_id s2 in
    ground (
      arith,
      read_bool-write_bool r.active s1,
      read-write r.client_id s2,
      read_number-write_number r.exp s3,
      read-write r.resource s4,
      read-write r.scope s5,
      read-write r.token_type [],
    )

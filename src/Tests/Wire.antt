-- ===== src/Tests/Wire.antt =====
-- A wire that is faithful.
use Prim.Native.String.{String, [], ◌∷◌}
use go_oauth_client_credenti.Common.{
  ◌≡◌, refl, sym, ap, ◌∙◌, ℕ, zero, suc, Option, none, some, arith, List,
}
use text.Mathlib.TextLemmas.{cons-append, nil-append}
use go_oauth_client_credenti.Common.Text.{◌<>◌}
use go_oauth_client_credenti.Oauth2.Error.{foreign}
use go_oauth_client_credenti.Oauth2.Exec.{Result, ok, err}
use go_oauth_client_credenti.Oauth2.Types.{TokenRequest}
use go_oauth_client_credenti.Oauth2.Http.{Body, value, Request}
use go_oauth_client_credenti.Client.Network.{Payload, no_payload, form, json, HttpRequest}
use go_oauth_client_credenti.Tests.Codec.{
  write_response, read_response, read-write_response, write_register, read_register,
  read_register-write_register, write_registered, read_registered, read_registered-write_registered,
  write_description, read_description, read_description-write_description,
}
use go_oauth_client_credenti.Server.Connected.{Wire, form_value, IsFaithful}

unfoldable pub size : String → ℕ
size [] = zero
size (c ∷ s) = suc (size s)

abbrev fields_of : Payload → List (String × String)
fields_of no_payload = List.[]
fields_of (form values) = values
fields_of (json _) = List.[]

abbrev token_request_of : List (String × String) → TokenRequest
token_request_of values = record {
  grant_type = form_value "grant_type" values;
  client_id = form_value "client_id" values;
  client_secret = form_value "client_secret" values;
  resource = form_value "resource" values;
  scope = form_value "scope" values;
}

abbrev json_of : Payload → String
json_of (json body) = body
json_of _ = ""

abbrev decoded : {A : Type 0} → Option A → Result A
decoded none = err (foreign "invalid character")
decoded (some a) = ok a

abbrev received : HttpRequest → Request
received req = record {
  method = req.method;
  path = "";
  content_type = form_value "Content-Type" req.headers;
  authorization = form_value "Authorization" req.headers;
  basic_auth = req.basic_auth;
  json_register = decoded (read_register (json_of req.payload));
  json_token_request = err (foreign "EOF");
  form_token_request = ok (token_request_of (fields_of req.payload));
  post_form = λ key. form_value key (fields_of req.payload);
  query = λ _. "";
  param = λ _. "";
  json_token = err (foreign "EOF");
}

abbrev body_of : {A : Type 0} → (A → String) → Body A → String
body_of write (value a) = write a
body_of write _ = ""

-- What was written of a value is read as it.
body_of-read :
    {A : Type 0} (write : A → String) (read : String → Option A)
    → ((a : A) → read (write a) ≡ some a)
    → (b : Body A) (a : A) → b ≡ value a
    → decoded (read (body_of write b)) ≡ ok a
body_of-read write read law b a e = rw (e, law a) refl

unfoldable pub drop : ℕ → String → String
drop zero s = s
drop (suc n) [] = []
drop (suc n) (c ∷ s) = drop n s

drop-append : (s t : String) → drop (size s) (s <> t) ≡ t
unfolding drop size
drop-append [] t = rw (nil-append t) refl
drop-append (c ∷ s) t = rw (cons-append c s t) (drop-append s t)

-- Where the server listens.
abbrev pub server : String
server = "https://auth.example.com"

abbrev path_of : String → String
path_of url = drop (size server) url

abbrev pub wire : Wire
wire = record {
  new_request = λ _ _. ok none;
  path = path_of;
  received = received;
  registration = λ r. record { status_code = r.status; body = body_of write_registered r.body };
  token = λ r. record { status_code = r.status; body = body_of write_response r.body };
  introspection = λ r. record { status_code = r.status; body = body_of write_description r.body };
  empty = λ r. record { status_code = r.status; body = "" };
  not_found = record { status_code = 404; body = "" };
  marshal = λ req. ok (write_register req);
  unmarshal_registration = λ body. decoded (read_registered body);
  unmarshal_token = λ body. decoded (read_response body);
  unmarshal_introspection = λ body. decoded (read_description body);
  decimal = λ _. "400";
}

pub wire-IsFaithful : IsFaithful wire
wire-IsFaithful = record {
  content_type =
      λ req values f. ap (λ (o : Option String). elim o [ none ↦ "" | some v ↦ v ]) f.content_type;
  form_token_request =
      λ req values f. ap (λ (l : Payload). ok (token_request_of (fields_of l))) f.payload;
  post_form = λ req values f key. ap (λ (l : Payload). form_value key (fields_of l)) f.payload;
  basic_auth = λ req name password plain e. e;
  token_status = λ r. refl;
  token_body = λ r. body_of-read write_response read_response read-write_response r.body;
  marshal = λ req. (write_register req, refl);
  json_register = λ r req body written sent.
      let same : write_register req ≡ body = ground (arith, written) in
      ap (λ (l : Payload). decoded (read_register (json_of l))) sent
      ∙ ap (λ (b : String). decoded (read_register b)) (sym same)
      ∙ ap decoded (read_register-write_register req);
  registration_status = λ r. refl;
  registration_body = λ r resp e _.
      body_of-read write_registered read_registered read_registered-write_registered r.body resp e;
  introspection_status = λ r. refl;
  introspection_body = λ r.
      body_of-read write_description read_description read_description-write_description r.body;
  empty_status = λ r. refl;
}

pub wire-path : (path : String) → wire.path (server <> path) ≡ path
wire-path path = drop-append server path

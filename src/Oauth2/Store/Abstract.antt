-- ===== src/Oauth2/Store/Abstract.antt =====
-- The store of pkg/oauth2/store.go with no representation: its states are the two maps.
use go_oauth_client_credenti.Common.{refl, Option, none, some}
use go_oauth_client_credenti.Oauth2.Exec.{Result, err}
use go_oauth_client_credenti.Oauth2.Types.{Client, Token}
use go_oauth_client_credenti.Oauth2.Store.{Store}
use go_oauth_client_credenti.Oauth2.Store.Errors.{request_error}
use go_oauth_client_credenti.Oauth2.Store.Contract.{
  Maps, add_client, put_token, mark_revoked, found_client, found_token, IsLawful,
}

abbrev pub create_client : Option Client → Maps → Result (Unit {0}) × Maps
create_client none m = (err (request_error ": invalid client"), m)
create_client (some c) m = add_client c m

abbrev pub save_token : Option Token → Maps → Result (Unit {0}) × Maps
save_token none m = (err (request_error ": invalid token"), m)
save_token (some t) m = put_token t m

abbrev pub maps_store : Store
maps_store = record {
  State = Maps;
  create_client = create_client;
  get_client = λ id m. found_client (m.client_at id);
  save_token = save_token;
  get_token_by_hash = λ h m. found_token (m.token_at h);
  revoke_token = mark_revoked;
}

abbrev pub maps_lawful : IsLawful maps_store
maps_lawful = record {
  maps = λ m. m;
  create_client-maps = λ c m. refl;
  get_client-maps = λ id m. refl;
  save_token-maps = λ t m. refl;
  get_token-maps = λ h m. refl;
  revoke_token-maps = λ now h m. refl;
}

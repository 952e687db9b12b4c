-- ===== src/Oauth2/Store/Errors.antt =====
-- `fmt.Errorf("%w<text>", ErrInvalidRequest)`, as the stores return it.
use go_oauth_client_credenti.Common.{String}
use go_oauth_client_credenti.Oauth2.Error.{Error, sentinel, wrapped, invalid_request}

abbrev pub request_error : String → Error
request_error text = wrapped "" (sentinel invalid_request) text

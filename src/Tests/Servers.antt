-- ===== src/Tests/Servers.antt =====
-- atomefin/mock/server_dispatch.go: a server that counts its answers, and a request that is repeated.
use atome_fin_go_sdk.Base.{
  [], ◌∷◌, ◌≡◌, refl, false, none, some, inl, inr, Bytes, codes, length, get, put, bytes_eq, arith,
}
use atome_fin_go_sdk.Errors.{plain_cause}
use atome_fin_go_sdk.Client.Headers.{canonical_header_key}
use atome_fin_go_sdk.Mock.Cache.{new_idempotency_cache, cache_get}
use atome_fin_go_sdk.Mock.Cache.Refinement.{new-IsCache}
use atome_fin_go_sdk.Mock.Server.{
  RecordedRequest, Config, Server, written, signed_response, spec_validate, idem_key, header_get,
  op_key, upper_ascii, serve, serve_all,
}
use atome_fin_go_sdk.Mock.Server.Replay.{serve-replayed}

-- The body is the requestId, and the answer is the number of requests before.
abbrev config : Config
config = record {
  spec = none;
  decode = λ s. inl (plain_cause "no document");
  request_id = λ s. s;
  opened = none;
  sign_response = none;
  fires_callbacks = false;
  respond = λ before r. inr (record { status = 200; headers = []; body = length before ∷ [] });
}

abbrev server : Server
server = record { requests = []; hits = []; idem = some (new_idempotency_cache 2) }

abbrev post : Bytes → RecordedRequest
post id = record {
  method = codes "POST";
  path = codes "/auth";
  query = [];
  headers = [];
  body = id;
}

serve-replayed_example :
    ((serve config (post (codes "a")) server).0
      ≡ written (record { status = 200; headers = []; body = 0 ∷ [] }) false)
    × ((serve config
          (post (codes "a"))
          (serve_all config (post (codes "b") ∷ []) (serve config (post (codes "a")) server).1)).0
        ≡ written
            (record {
              status = 200;
              headers = (codes "X-Mock-Replay", codes "1" ∷ []) ∷ [];
              body = 0 ∷ [];
            })
            false)
    × ((serve config (post (codes "a")) (
          serve_all config
            (post (codes "b") ∷ [])
            (serve config (post (codes "a")) server).1)).1.requests
        ≡ (serve_all config
            (post (codes "b") ∷ [])
            (serve config (post (codes "a")) server).1).requests)
    × ((serve config (post (codes "a")) (
          serve_all config
            (post (codes "b") ∷ [])
            (serve config (post (codes "a")) server).1)).1.hits
        ≡ (serve_all config
            (post (codes "b") ∷ [])
            (serve config (post (codes "a")) server).1).hits)
unfolding signed_response spec_validate idem_key header_get canonical_header_key get put bytes_eq
    cache_get new_idempotency_cache op_key upper_ascii
serve-replayed_example =
    serve-replayed config (record { status = 200; headers = []; body = 0 ∷ [] }) (post (codes "a"))
      server (new_idempotency_cache 2) (post (codes "b") ∷ []) (post (codes "a")) refl
      (new-IsCache 2) refl refl refl refl (omega arith) refl refl

-- ===== src/Share/Server.antt =====
-- The server of the share-manager's API: `serve_api` of src/sharemanager.rs, and the task that main runs
-- it in. Sockets and the HTTP server are tokio's and axum's.
use hcloud_csi_rwx.Prelude.{ℕ, String, Option, some, [], ◌∷◌, format, option_map}
use hcloud_csi_rwx.Kube.{Result, ok, err}
use hcloud_csi_rwx.Kube.Session.{recode}

-- What binding an address makes, a socket, and what serving it has come to; nothing while it goes on.
pub record Network : Type 0 where
  pub bind : String → Result String ℕ
  pub serve : ℕ → Option (Result String (Unit {0}))

module _ (n : Network) where
  unfoldable pub serve_api_on : ℕ → Option (Result String (Unit {0}))
  serve_api_on listener =
      option_map (recode (λ e. format ("API server error: " ∷ e ∷ []))) (n.serve listener)

  abbrev bound : String → Result String ℕ → Option (Result String (Unit {0}))
  bound listen (ok listener) = serve_api_on listener
  bound listen (err e) = some (err (format ("failed to bind API on " ∷ listen ∷ ": " ∷ e ∷ [])))

  unfoldable pub serve_api : String → Option (Result String (Unit {0}))
  unfolding serve_api_on
  serve_api listen = bound listen (n.bind listen)

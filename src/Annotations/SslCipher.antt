-- ===== src/Annotations/SslCipher.antt =====
-- internal/ingress/annotations/sslcipher/main.go: the parsed annotation.
use panda_k8s.Prelude.{String}

pub record Config : Type 0 where
  pub ssl_ciphers : String
  pub ssl_prefer_server_ciphers : String

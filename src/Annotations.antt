-- ===== src/Annotations.antt =====
-- internal/ingress/annotations: what the annotations of an Ingress parse to. Parser reads one of
-- them; each other module has the record of one annotation and its `Equal` method, if it has one. `Equal` is called on the addresses of two
-- fields of objects already known to be distinct, so its tests of addresses and of nil are always
-- false there, and its model starts below them.
pub mod Parser
pub mod AuthSslCert
pub mod Auth
pub mod AuthReq
pub mod AuthTls
pub mod Cors
pub mod FastCgi
pub mod GlobalRateLimit
pub mod InfluxDb
pub mod IpWhitelist
pub mod Log
pub mod Mirror
pub mod ModSecurity
pub mod Opentracing
pub mod Proxy
pub mod ProxySsl
pub mod RateLimit
pub mod Rewrite
pub mod Connection
pub mod Redirect
pub mod Canary
pub mod SessionAffinity
pub mod SslCipher
pub mod UpstreamHashBy
pub mod Parsed
pub mod Zero

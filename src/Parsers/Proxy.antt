-- ===== src/Parsers/Proxy.antt =====
-- internal/ingress/annotations/proxy/main.go
use panda_k8s.Annotations.Parser.{or_default}
use panda_k8s.Annotations.Proxy.{Config}
use panda_k8s.Parsers.{Resolver, Annotated, string_of, int_of}

-- `Parse`, which never answers an error
unfoldable pub proxy : Resolver → Annotated → Config
proxy r ing =
    let d = r.defaults in
    record {
      connect_timeout = or_default d.proxy_connect_timeout (int_of r ing "proxy-connect-timeout");
      send_timeout = or_default d.proxy_send_timeout (int_of r ing "proxy-send-timeout");
      read_timeout = or_default d.proxy_read_timeout (int_of r ing "proxy-read-timeout");
      buffers_number = or_default d.proxy_buffers_number (int_of r ing "proxy-buffers-number");
      buffer_size = or_default d.proxy_buffer_size (string_of r ing "proxy-buffer-size");
      cookie_path = or_default d.proxy_cookie_path (string_of r ing "proxy-cookie-path");
      cookie_domain = or_default d.proxy_cookie_domain (string_of r ing "proxy-cookie-domain");
      body_size = or_default d.proxy_body_size (string_of r ing "proxy-body-size");
      next_upstream = or_default d.proxy_next_upstream (string_of r ing "proxy-next-upstream");
      next_upstream_timeout =
          or_default d.proxy_next_upstream_timeout (int_of r ing "proxy-next-upstream-timeout");
      next_upstream_tries =
          or_default d.proxy_next_upstream_tries (int_of r ing "proxy-next-upstream-tries");
      request_buffering =
          or_default d.proxy_request_buffering (string_of r ing "proxy-request-buffering");
      proxy_redirect_from =
          or_default d.proxy_redirect_from (string_of r ing "proxy-redirect-from");
      proxy_redirect_to = or_default d.proxy_redirect_to (string_of r ing "proxy-redirect-to");
      proxy_buffering = or_default d.proxy_buffering (string_of r ing "proxy-buffering");
      proxy_http_version = or_default d.proxy_http_version (string_of r ing "proxy-http-version");
      proxy_max_temp_file_size =
          or_default d.proxy_max_temp_file_size (string_of r ing "proxy-max-temp-file-size");
    }

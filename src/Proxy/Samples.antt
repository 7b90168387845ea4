-- ===== src/Proxy/Samples.antt =====
-- The packages of the handlers over plain texts, for the tests: every text is a URI, a header name and a
-- value; a map is the list of its entries.
use Prim.Native.Nat.{min, ◌/◌}
use hamsy_proxy.BodyStream.Throttle.{Float}
use hamsy_proxy.Shared.{
  ℕ, ◌+◌, ◌-◌, ◌*◌, leb, false, not, none, some, List, [], ◌∷◌, ◌++◌, filter, map, length, ok, err,
}
use hamsy_proxy.Shared.Text.{Text, text, text_eq}
use hamsy_proxy.Shared.Int.{pos}
use hamsy_proxy.Flow.{Timings}
use hamsy_proxy.BodyStream.{Source, data_frame}
use hamsy_proxy.Body.{Codecs, Reader}
use hamsy_proxy.Rules.Samples.{plain_texts, set}
use hamsy_proxy.Proxy.Error.{upstream_connect}
use hamsy_proxy.Proxy.Net.{http_11, Net}
use hamsy_proxy.Proxy.Target.{ConnInfo, Parts}
use hamsy_proxy.Proxy.Dispatch.{Upstream}
use hamsy_proxy.Proxy.Exchange.{Exchange}

abbrev entries_but : Text → List (Text × Text) → List (Text × Text)
entries_but name entries = filter (λ e. not (text_eq (e.0) name)) entries

abbrev pub plain_net : Net plain_texts
plain_net = record {
  parse_ip = λ s. none;
  url_error = λ s. text "not a URL";
  path = λ url. text "/";
  query = λ url. none;
  port_or_known_default = λ url. some 80;
  canonical_reason = λ status. none;
  parse_method = λ s. some s;
  HeaderValue = Text;
  parse_name = λ s. ok s;
  parse_value = λ s. ok s;
  value_of_bytes = λ s. some s;
  to_str = λ v. some v;
  as_bytes = λ v. v;
  is_sensitive = λ v. false;
  set_sensitive = λ b v. v;
  HeaderMap = List (Text × Text);
  new_map = [];
  append = λ name v entries. entries ++ (name, v) ∷ [];
  insert = λ name v entries. entries_but name entries ++ (name, v) ∷ [];
  remove = entries_but;
  get_all = λ name entries. map (λ e. e.1) (filter (λ e. text_eq (e.0) name) entries);
  iter = λ entries. entries;
  Uri = Text;
  parse_uri = λ s. ok s;
  authority = λ uri. none;
  parse_authority = λ s. some s;
  with_authority = λ a uri. some uri;
  uri_scheme = λ uri. some (text "http");
  uri_to_string = λ uri. uri;
  path_and_query = λ uri. some uri;
  json_error = λ error reason. reason;
}

abbrev read_all : Text → Reader
read_all z = record { output = z; failure = none }

abbrev pub plain_codecs : Codecs
plain_codecs = record {
  gz_decoder = read_all;
  zlib_decoder = read_all;
  deflate_decoder = read_all;
  brotli_decompressor = read_all;
  zstd_decoder = λ z. ok (read_all z);
  gz_encode = ok;
  zlib_encode = ok;
  brotli_compress = ok;
  zstd_encode_all = ok;
  base64_encode = λ b. b;
  base64_decode = some;
  allocated = length;
}

-- An upstream that cannot be reached.
abbrev pub unreachable : Upstream plain_net ℕ
unreachable = record {
  zero = 0;
  minus_one = 0;
  obtain = λ scheme host port mirror_h2 proxy. err (upstream_connect (text "h"));
  send_request = λ parts body. err (upstream_connect (text "h"));
}

abbrev pub sample_parts : Parts plain_net
sample_parts = record {
  method = text "POST";
  uri = text "u";
  version = http_11;
  headers = (text "host", text "h") ∷ [];
}

abbrev pub sample_conn : ConnInfo
sample_conn = record {
  client_addr = text "c";
  scheme = text "http";
  authority = none;
  tls = none;
  mirror_h2 = false;
  app = none;
  app_resolution = some (some (some (text "curl")));
}

abbrev pub sample_source : Source
sample_source = record {
  frames = data_frame (text "ab") ∷ data_frame (text "c") ∷ [];
  failure = ok tt;
}

abbrev zero_timings : Timings ℕ
zero_timings = record {
  blocked = 0;
  dns = 0;
  connect = 0;
  ssl = 0;
  send = 0;
  wait = 0;
  receive = 0;
}

abbrev pub sample_exchange : Exchange plain_net ℕ
sample_exchange = record {
  parts = sample_parts;
  body = sample_source;
  conn = sample_conn;
  url = text "u";
  req_headers = record { name = text "host"; value = text "h" } ∷ [];
  started_at = pos 1;
  finished_at = pos 3;
  flow_id = 7;
  seq = 1;
  rule_set = set;
  max_body_bytes = 10;
  upstream_proxy = none;
  upstream = unreachable;
  zero_timings = zero_timings;
}

-- A clock in whole seconds.
abbrev pub seconds : Float ℕ
seconds = record {
  of_u64 = λ n. n;
  add = λ a b. a + b;
  sub = λ a b. a - b;
  mul = λ a b. a * b;
  div = λ a b. a / b;
  min_of = λ a b. min a b;
  at_least = λ a b. leb b a;
}

-- ===== src/Browser/Resource.antt =====
-- `WebPageResource`, `RequestInitiator` and `Cookie` of src/browser/mod.rs.
use browser_headless.Base.{ℕ, Bool, false, Option, none, [], Text}

-- What the code reads of a `url::Url`: `host_str()` and `path()`.
pub record ParsedUrl : Type 0 where
  pub host_str : Option Text
  pub path : Text

pub record RequestInitiator : Type 0 where
  pub kind : Text
  pub url : Option Text
  pub line_number : Option ℕ

-- The phases of a request in microseconds, counted from a moment before all of them, so that CDP's -1 for a phase
-- that did not happen is a number too; only differences of them are read.
pub record ResourceTiming : Type 0 where
  pub request_time : ℕ
  pub dns_start : ℕ
  pub dns_end : ℕ
  pub connect_start : ℕ
  pub connect_end : ℕ
  pub ssl_start : ℕ
  pub ssl_end : ℕ
  pub send_start : ℕ
  pub send_end : ℕ
  pub receive_headers_end : ℕ

pub record WebPageResource : Type 0 where
  pub content_size : ℕ
  pub request_id : Text
  pub status : ℕ
  pub url : Text
  pub timing : Option ResourceTiming
  pub mime_type : Text
  pub connection_reused : Bool
  pub protocol : Text
  pub content_encoding : Option Text
  pub cache_control : Option Text
  pub has_source_map : Bool
  pub from_cache : Bool
  pub cors_allow_origin : Option Text
  pub cors_allow_credentials : Bool
  pub initiator : Option RequestInitiator
  pub parsed_url : Option ParsedUrl

-- `WebPageResource { request_id, ..Default::default() }`.
abbrev pub new_resource : Text → WebPageResource
new_resource id = record {
  content_size = 0;
  request_id = id;
  status = 0;
  url = [];
  timing = none;
  mime_type = [];
  connection_reused = false;
  protocol = [];
  content_encoding = none;
  cache_control = none;
  has_source_map = false;
  from_cache = false;
  cors_allow_origin = none;
  cors_allow_credentials = false;
  initiator = none;
  parsed_url = none;
}

pub record Cookie : Type 0 where
  pub name : Text
  pub value : Text
  pub http_only : Bool
  pub secure : Bool
  pub same_site : Option Text

-- ===== src/Browser/Collect/State.antt =====
-- The events that `collect_summary` of src/browser/mod.rs drains, the variables of its loop, and the parts of its
-- result. Timestamps of events are in microseconds, `Instant`s in milliseconds; the type of a request is its `{:?}`
-- form in lower case.
use browser_headless.Base.{ℕ, Bool, Option, none, List, [], Text, codes, text_eq}
use browser_headless.Base.Dicts.{Dict}
use browser_headless.Base.Int.{ℤ}
use browser_headless.Browser.Resource.{RequestInitiator, ResourceTiming, WebPageResource}
use browser_headless.Browser.Security.Audit.{Headers}

pub record CollectCaptures : Type 0 where
  pub lean : Bool
  pub screenshot : Bool
  pub initiators : Bool
  pub console : Bool
  pub http_errors : Bool
  pub coverage : Bool
  pub cookies : Bool
  pub resource_headers : Bool
  pub cors_headers : Bool
  pub free_resources : Bool

-- What the code reads of a `SecurityDetails`, with its times in seconds since the epoch.
pub record SecurityDetails : Type 0 where
  pub protocol : Text
  pub cipher : Text
  pub key_exchange : Text
  pub subject_name : Text
  pub issuer : Text
  pub valid_from : ℕ
  pub valid_to : ℕ
  pub san_list : List Text

pub record TlsInfo : Type 0 where
  pub host : Text
  pub remote_ip : Option Text
  pub remote_port : Option ℕ
  pub protocol : Text
  pub cipher : Text
  pub key_exchange : Option Text
  pub subject_name : Text
  pub issuer : Text
  pub valid_from : ℕ
  pub valid_to : ℕ
  pub days_remaining : ℤ
  pub san_list : List Text

-- An `EventResponseReceived`: its headers are none if they are no JSON object.
pub record ResponseReceived : Type 0 where
  pub request_id : Text
  pub resource_type : Text
  pub url : Text
  pub status : ℕ
  pub mime_type : Text
  pub connection_reused : Bool
  pub timing : Option ResourceTiming
  pub from_disk_cache : Option Bool
  pub from_service_worker : Option Bool
  pub from_prefetch_cache : Option Bool
  pub protocol : Option Text
  pub headers : Option Headers
  pub security_details : Option SecurityDetails
  pub remote_ip_address : Option Text
  pub remote_port : Option ℕ

-- The exception object of an `EventExceptionThrown`, and its details.
pub record Thrown : Type 0 where
  pub class_name : Option Text
  pub description : Option Text

pub record ExceptionThrown : Type 0 where
  pub line_number : ℕ
  pub column_number : ℕ
  pub text : Text
  pub exception : Option Thrown

-- A console argument's JSON value: a string, or the text of another value.
pub data ConsoleValue : Type 0 where
  string : Text → ConsoleValue
  other : Text → ConsoleValue

pub record ConsoleArg : Type 0 where
  pub value : Option ConsoleValue
  pub description : Option Text
  pub kind : Text

pub record RequestWillBeSent : Type 0 where
  pub request_id : Text
  pub url : Text
  pub initiator : RequestInitiator
  pub timestamp : ℕ

pub record LoadingFailed : Type 0 where
  pub request_id : Text
  pub timestamp : ℕ
  pub resource_type : Text
  pub error_text : Text
  pub canceled : Option Bool

pub data Event : Type 0 where
  lifecycle : ℕ → Text → Event
  response : ResponseReceived → Event
  loading_finished : Text → ℕ → Event
  exception : ExceptionThrown → Event
  console : Text → List ConsoleArg → Event
  request : RequestWillBeSent → Event
  loading_failed : LoadingFailed → Event
  style_sheet : Text → Text → ℕ → Event

pub record NetworkFailure : Type 0 where
  pub url : Text
  pub error_text : Text
  pub resource_type : Text
  pub canceled : Bool

pub record DocumentTiming : Type 0 where
  pub url : Text
  pub status : ℕ
  pub from_cache : Bool
  pub protocol : Text
  pub dns_ms : ℕ
  pub tcp_ms : ℕ
  pub tls_ms : ℕ
  pub ttfb_ms : ℕ

-- The variables that the full and the lean loop share.
pub record Progress : Type 0 where
  pub document_timing : Option DocumentTiming
  pub pending_patterns : List Text
  pub idle_at : Option ℕ
  pub load_at : Option ℕ
  pub init_ts : Option ℕ
  pub fcp_ts : Option ℕ
  pub dcl_ts : Option ℕ
  pub load_ts : Option ℕ

-- The other variables of the full loop.
pub record Collect : Type 0 where
  pub progress : Progress
  pub resources : Dict WebPageResource
  pub exceptions : List Text
  pub exception_buckets : Dict (ℕ × Option Text)
  pub console_messages : List Text
  pub security_headers : Option (Dict Text)
  pub tls_info : Option TlsInfo
  pub http_resource_types : Dict Text
  pub http_final_url : Text
  pub http_redirect_count : ℕ
  pub http_network_failures : List NetworkFailure
  pub failed_loading : Dict Text
  pub request_sent_at : Dict ℕ
  pub quick_abort_ids : List Text
  pub stylesheet_meta : Dict (Text × ℕ)
  pub tls_by_host : Dict TlsInfo

abbrev pub start_progress : List Text → Progress
start_progress wait_for_request = record {
  document_timing = none;
  pending_patterns = wait_for_request;
  idle_at = none;
  load_at = none;
  init_ts = none;
  fcp_ts = none;
  dcl_ts = none;
  load_ts = none;
}

abbrev pub start_collect : Text → List Text → Collect
start_collect url wait_for_request = record {
  progress = start_progress wait_for_request;
  resources = [];
  exceptions = [];
  exception_buckets = [];
  console_messages = [];
  security_headers = none;
  tls_info = none;
  http_resource_types = [];
  http_final_url = url;
  http_redirect_count = 0;
  http_network_failures = [];
  failed_loading = [];
  request_sent_at = [];
  quick_abort_ids = [];
  stylesheet_meta = [];
  tls_by_host = [];
}

-- `matches!(ev.type, ResourceType::Document)`.
unfoldable pub is_document : Text → Bool
is_document kind = text_eq kind (codes "document")

-- ===== src/Error.antt =====
-- src/error.rs: the transport-neutral capture error, its HTTP status, and the mapping from the
-- browser layer's error (`Error` of src/browser/mod.rs).
use Prim.Native.Nat.{◌<◌}
use browser_headless.Base.{ℕ, ◌≤◌, Text, codes, ◌++◌, arith}

pub data CaptureErrorKind : Type 0 where
  bad_request unauthorized forbidden not_found timeout : CaptureErrorKind
  gateway_timeout bad_gateway service_unavailable too_many_requests internal : CaptureErrorKind

pub record CaptureError : Type 0 where
  pub kind : CaptureErrorKind
  pub message : Text

-- `CaptureError::new`; the constructors `CaptureError::bad_request` and so on are
-- `capture_error bad_request`.
abbrev pub capture_error : CaptureErrorKind → Text → CaptureError
capture_error kind message = record { kind = kind; message = message }

unfoldable pub kind_status : CaptureErrorKind → ℕ
kind_status bad_request = 400
kind_status unauthorized = 401
kind_status forbidden = 403
kind_status not_found = 404
kind_status timeout = 408
kind_status too_many_requests = 429
kind_status gateway_timeout = 504
kind_status bad_gateway = 502
kind_status service_unavailable = 503
kind_status internal = 500

unfoldable pub status_u16 : CaptureError → ℕ
unfolding kind_status
status_u16 e = kind_status e.kind

-- `status` is an i64 in the source; only its printed form is used, so it is a text here.
pub data BrowserError : Type 0 where
  cdp : Text → BrowserError
  element_not_found : Text → BrowserError
  wait_timeout : Text → BrowserError
  upstream_failure : Text → Text → BrowserError
  invalid_input : Text → BrowserError

unfoldable pub browser_message : BrowserError → Text
browser_message (cdp s) = s
browser_message (element_not_found s) = codes "not found: " ++ s
browser_message (wait_timeout s) = codes "timed out waiting for " ++ s
browser_message (upstream_failure status url) =
    codes "upstream request failed (status " ++ (status ++ (codes "): " ++ url))
browser_message (invalid_input s) = codes "invalid input: " ++ s

unfoldable pub from_browser : BrowserError → CaptureError
unfolding browser_message
from_browser (cdp s) = capture_error internal (browser_message (cdp s))
from_browser (element_not_found s) = capture_error not_found (browser_message (element_not_found s))
from_browser (wait_timeout s) = capture_error timeout (browser_message (wait_timeout s))
from_browser (upstream_failure c u) =
    capture_error bad_gateway (browser_message (upstream_failure c u))
from_browser (invalid_input s) = capture_error bad_request (browser_message (invalid_input s))

-- The status of every capture error is from 400 to 599.
pub status-error : (e : CaptureError) → (400 ≤ status_u16 e) × (status_u16 e < 600)
unfolding status_u16
status-error e = go e.kind
  where
    go : (k : CaptureErrorKind) → (400 ≤ kind_status k) × (kind_status k < 600)
    go bad_request = omega arith
    go _ = omega arith

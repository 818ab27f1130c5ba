-- ===== src/Browser/Collect/Finish/Stat.antt =====
-- The snapshot of a page, `WebPageStat` of src/browser/mod.rs, and what it holds.
use browser_headless.Base.{ℕ, Option, List, Text}
use browser_headless.Base.Dicts.{Dict}
use browser_headless.Browser.Resource.{WebPageResource, Cookie}
use browser_headless.Browser.Security.{CorsIssue}
use browser_headless.Browser.Security.Audit.{SecurityAudit}
use browser_headless.Browser.Summary.Report.{ResourceSummary}
use browser_headless.Browser.Coverage.Report.{CoverageReport}
use browser_headless.Browser.Collect.State.{TlsInfo, NetworkFailure, DocumentTiming}

pub record JsExceptionCount : Type 0 where
  pub name : Text
  pub count : ℕ
  pub sample_message : Option Text

pub record JsExceptions : Type 0 where
  pub total : ℕ
  pub by_name : List JsExceptionCount

pub record FailedRequest : Type 0 where
  pub url : Text
  pub status : ℕ
  pub resource_type : Text

pub record HttpErrors : Type 0 where
  pub failed_count : ℕ
  pub failed_4xx : List FailedRequest
  pub failed_5xx : List FailedRequest
  pub network_failures : List NetworkFailure
  pub final_url : Text
  pub redirect_count : ℕ

-- What the page's scripts found, and the CORS findings.
pub record SecurityScan (Doc : Type 0) : Type 0 where
  pub found : Doc
  pub cors_issues : List CorsIssue

-- `Doc` stands for what the browser answers, decoded: images, PDF, metrics and what the scripts of the page return.
pub record WebPageStat (Doc : Type 0) : Type 0 where
  pub total_size : ℕ
  pub resource_count : ℕ
  pub fcp_time : ℕ
  pub dcl_time : ℕ
  pub load_time : ℕ
  pub body : Text
  pub exceptions : List Text
  pub js_exceptions : JsExceptions
  pub console_messages : List Text
  pub resources : List WebPageResource
  pub cookies : List Cookie
  pub screenshot : Option Doc
  pub pdf : Option Doc
  pub har : Option Doc
  pub dom_snapshot : Option Doc
  pub web_vitals : Option Doc
  pub metrics : Option Doc
  pub resource_summary : ResourceSummary
  pub metadata : Option Doc
  pub render_blocking_resources : Option Doc
  pub security_headers : Option (Dict Text)
  pub security_audit : Option SecurityAudit
  pub service_worker : Option Doc
  pub tls_info : Option TlsInfo
  pub tls_certificates : List TlsInfo
  pub image_sizing : Option Doc
  pub image_audit : Option Doc
  pub font_audit : Option Doc
  pub security_scan : Option (SecurityScan Doc)
  pub dom_mutations : Option Doc
  pub http_errors : Option HttpErrors
  pub coverage : Option CoverageReport
  pub document_timing : Option DocumentTiming

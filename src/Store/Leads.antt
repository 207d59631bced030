-- ===== src/Store/Leads.antt =====
-- The rows of the webhooks and of the job that enriches and scores a person.
use zex_platform.Base.{Text, ℕ, Bool, Option, List}
use zex_platform.Base.Ints.{ℤ}
use zex_platform.Json.{Fields}

pub data LogStatus : Type 0 where
  queued processing success failed : LogStatus

pub record WebhookLog : Type 0 where
  pub id : Text
  pub tenant : Text
  pub event : Text
  pub status : LogStatus
  pub error : Option Text
  pub attempts : ℕ
  pub job_id : Option Text
  pub result : Option Fields

-- A key of the store of seen webhooks, with the time in milliseconds at which it goes.
pub record SeenKey : Type 0 where
  pub key : Text
  pub expires : ℕ

-- An entry of `factors`.
pub record Factor : Type 0 where
  pub name : Text
  pub points : ℤ

pub record ScoreHistory : Type 0 where
  pub id : Text
  pub tenant : Text
  pub person : Text
  pub person_name : Option Text
  pub person_email : Option Text
  pub score : ℕ
  pub factors : List Factor
  pub rule_name : Option Text
  pub opportunity_created : Bool
  pub opportunity : Option Text

-- `TwentyPerson`, with the age of its last change in whole days in place of the time; the age is below
-- zero where the time lies ahead.
pub record Lead : Type 0 where
  pub id : Text
  pub first_name : Option Text
  pub last_name : Option Text
  pub email : Option Text
  pub job_title : Option Text
  pub days_old : Option ℤ
  pub company_id : Option Text

-- `personSnapshot`
pub record Snapshot : Type 0 where
  pub first_name : Option Text
  pub last_name : Option Text
  pub email : Option Text
  pub job_title : Option Text

-- `EnrichmentResult`, with the text of its confidence.
pub record Enrichment : Type 0 where
  pub person_email : Option Text
  pub company_name : Option Text
  pub company_domain : Option Text
  pub company_size : Option Text
  pub industry : Option Text
  pub location : Option Text
  pub job_title : Option Text
  pub job_function : Option Text
  pub technologies : Option (List Text)
  pub source : Text
  pub confidence : Text

-- The parts of a scoring configuration; a weight that is not given is `none`. Weights and
-- thresholds are whole numbers, of either sign.
pub record TitleKeywords : Type 0 where
  pub keywords : List Text
  pub weight : Option ℤ

pub record ActivityRecency : Type 0 where
  pub weight : Option ℤ
  pub days_threshold : Option ℤ

pub record Weights : Type 0 where
  pub title_keywords : Option TitleKeywords
  pub company_size_match : Option (Option ℤ)
  pub industry_match : Option (Option ℤ)
  pub activity_recency : Option ActivityRecency

-- A value of JSON, as a filter reads it: nothing, a text, a number by its text, or an array of these.
pub data Scalar : Type 0 where
  word number : Text → Scalar

pub data Value : Type 0 where
  missing : Value
  single : Scalar → Value
  array : List Scalar → Value

pub record Filter : Type 0 where
  pub about : Text
  pub operator : Text
  pub value : Value

pub record ScoringRule : Type 0 where
  pub tenant : Text
  pub name : Text
  pub enabled : Bool
  pub priority : ℤ
  pub filters : List Filter
  pub weights : Weights

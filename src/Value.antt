-- ===== src/Value.antt =====
-- include/cpplinq/mapping: the SQL types, and the values that are bound to parameters.
pub mod Utf8
pub mod Guid
use cpplinq.Common.{ℕ, Bool, List}
use cpplinq.Common.Int.{ℤ}
use cpplinq.Text.{Text}

pub data SqlType : Type 0 where
  integer big_int unsigned_big_int real decimal text wstring blob boolean : SqlType
  date time timestamp interval guid : SqlType

pub record SqlGuid : Type 0 where
  pub bytes : List ℕ

pub record SqlNumeric : Type 0 where
  pub value : Text
  pub precision : ℕ
  pub scale : ℤ
  pub is_negative : Bool

pub record SqlDate : Type 0 where
  pub year : ℤ
  pub month : ℕ
  pub day : ℕ

pub record SqlTime : Type 0 where
  pub hour : ℕ
  pub minute : ℕ
  pub second : ℕ
  pub fraction : ℕ

pub record SqlTimestamp : Type 0 where
  pub year : ℤ
  pub month : ℕ
  pub day : ℕ
  pub hour : ℕ
  pub minute : ℕ
  pub second : ℕ
  pub fraction : ℕ
  pub tz_offset_minutes : ℤ

pub data IntervalType : Type 0 where
  year month day hour minute second : IntervalType
  year_to_month day_to_hour day_to_minute day_to_second : IntervalType
  hour_to_minute hour_to_second minute_to_second : IntervalType

pub record SqlInterval : Type 0 where
  pub interval_type : IntervalType
  pub is_negative : Bool
  pub years : ℕ
  pub months : ℕ
  pub days : ℕ
  pub hours : ℕ
  pub minutes : ℕ
  pub seconds : ℕ
  pub fraction : ℕ

-- expr::SqlValue and BoundValue list the same alternatives, so they are one type. A double is its
-- 64 bits; a std::wstring is the list of its units.
pub data SqlValue : Type 0 where
  null : SqlValue
  int64 : ℤ → SqlValue
  uint64 : ℕ → SqlValue
  double : ℕ → SqlValue
  string : Text → SqlValue
  wide : List ℕ → SqlValue
  boolean_value : Bool → SqlValue
  bytes : List ℕ → SqlValue
  numeric : SqlNumeric → SqlValue
  date_value : SqlDate → SqlValue
  time_value : SqlTime → SqlValue
  timestamp_value : SqlTimestamp → SqlValue
  interval_value : SqlInterval → SqlValue
  guid_value : SqlGuid → SqlValue

abbrev pub BoundValue : Type 0
BoundValue = SqlValue

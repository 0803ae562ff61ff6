-- ===== src/ScatterGather/Models.antt =====
-- scatter_gather_pattern/models.py. A fare is a number of cents, a time a number.
use message_broker_patterns.Base.{ℕ, String}
use message_broker_patterns.Base.Int.{ℤ}

pub data DistributionStrategy : Type 0 where
  recipient_list publish_subscribe : DistributionStrategy

pub record SearchRequest : Type 0 where
  pub correlation_id : String
  pub origin : String
  pub destination : String
  pub departure_date : String
  pub passengers : ℕ
  pub created_at : ℕ

pub record FlightQuote : Type 0 where
  pub correlation_id : String
  pub airline : String
  pub flight_number : String
  pub price_cents : ℤ
  pub depart_at : ℕ

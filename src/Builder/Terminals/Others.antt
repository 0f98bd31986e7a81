-- ===== src/Builder/Terminals/Others.antt =====
-- include/cpplinq/core/query_builder.h: the terminal operations of the joined and the combined
-- queries.
use cpplinq.Common.{ℕ, Bool, List, Option, none, some, Outcome, if◌then◌else◌}
use cpplinq.Dialect.Quote.{Dialect}
use cpplinq.Session.{Driver, History, Session, pure, ◌>>=◌}
use cpplinq.Builder.Joins.{JoinType, JoinedQueryBuilder, joined_request, joined_count_request}
use cpplinq.Builder.Joins3.{Joined3QueryBuilder, joined3_request, joined3_count_request}
use cpplinq.Builder.Combined.{SetOpQueryBuilder, set_request, set_count_request}
use cpplinq.Builder.Terminals.{fetch_all, fetch_count, first_of}

-- The joined entity of a row: of a left join, none if all its columns are null. `map_row` and
-- `is_all_null` are those of its mapper.
unfoldable pub joined_part {ℓ} :
    {R : Type ℓ} → JoinType → Session Bool → Session R → Session (Option R)
joined_part JoinType.inner is_all_null map_row = map_row >>= λ r. pure (some r)
joined_part JoinType.left is_all_null map_row =
    is_all_null >>= λ absent. if absent then pure none else (map_row >>= λ r. pure (some r))

module _ {ℓ κ} {E F : Type ℓ} {R S : Type κ} (driver : Driver) (d : Dialect) (map_row1 : Session R)
    (is_all_null2 : Session Bool) (map_row2 : Session S) where
  unfoldable pub joined_to_list :
      ℕ → JoinedQueryBuilder E F → Session (Option (List (R × Option S)))
  unfolding fetch_all joined_request joined_part
  joined_to_list fuel q =
      fetch_all driver d
        (map_row1 >>= λ r. joined_part q.join_type is_all_null2 map_row2 >>= λ s. pure (r, s)) fuel
        (joined_request q)

  unfoldable pub joined_first :
      ℕ
      → JoinedQueryBuilder E F
      → History
      → (Outcome (Option (Option (R × Option S))) × JoinedQueryBuilder E F) × History
  unfolding joined_to_list
  joined_first fuel q h =
      let limited = record q { limit = some 1 } in
      let (r, h') = joined_to_list fuel limited h in
      ((first_of r, record limited { limit = q.limit }), h')

module _ {ℓ} {E F : Type ℓ} (driver : Driver) (d : Dialect) where
  unfoldable pub joined_count : JoinedQueryBuilder E F → Session ℕ
  unfolding fetch_count joined_count_request
  joined_count q = fetch_count driver d (joined_count_request q)

module _ {ℓ κ} {E F G : Type ℓ} {R S T : Type κ} (driver : Driver) (d : Dialect)
    (map_row1 : Session R) (is_all_null2 : Session Bool) (map_row2 : Session S)
    (is_all_null3 : Session Bool) (map_row3 : Session T) where
  unfoldable pub joined3_to_list :
      ℕ → Joined3QueryBuilder E F G → Session (Option (List (R × Option S × Option T)))
  unfolding fetch_all joined3_request joined_part
  joined3_to_list fuel q =
      fetch_all driver d
        (map_row1 >>= λ r. joined_part q.join_type2 is_all_null2 map_row2 >>= λ s.
          joined_part q.join_type3 is_all_null3 map_row3 >>= λ t. pure (r, s, t))
        fuel (joined3_request q)

  unfoldable pub joined3_first :
      ℕ
      → Joined3QueryBuilder E F G
      → History
      → (Outcome (Option (Option (R × Option S × Option T))) × Joined3QueryBuilder E F G) × History
  unfolding joined3_to_list
  joined3_first fuel q h =
      let limited = record q { limit = some 1 } in
      let (r, h') = joined3_to_list fuel limited h in
      ((first_of r, record limited { limit = q.limit }), h')

module _ {ℓ} {E F G : Type ℓ} (driver : Driver) (d : Dialect) where
  unfoldable pub joined3_count : Joined3QueryBuilder E F G → Session ℕ
  unfolding fetch_count joined3_count_request
  joined3_count q = fetch_count driver d (joined3_count_request q)

module _ {ℓ κ} {E : Type ℓ} {R : Type κ} (driver : Driver) (d : Dialect) (map_row : Session R) where
  unfoldable pub set_to_list : ℕ → SetOpQueryBuilder E → Session (Option (List R))
  unfolding fetch_all set_request
  set_to_list fuel q = fetch_all driver d map_row fuel (set_request q)

  unfoldable pub set_first :
      ℕ
      → SetOpQueryBuilder E
      → History
      → (Outcome (Option (Option R)) × SetOpQueryBuilder E) × History
  unfolding set_to_list
  set_first fuel q h =
      let limited = record q { limit = some 1 } in
      let (r, h') = set_to_list fuel limited h in
      ((first_of r, record limited { limit = q.limit }), h')

module _ {ℓ} {E : Type ℓ} (driver : Driver) (d : Dialect) where
  unfoldable pub set_count : SetOpQueryBuilder E → Session ℕ
  unfolding fetch_count set_count_request
  set_count q = fetch_count driver d (set_count_request q)

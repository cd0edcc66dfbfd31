-- ===== src/Pagination.antt =====
-- libs/shared/src/api/pagination.ts, with the page of rows that the queries take by `limit` and
-- `offset`.
pub mod Cover
use simple_storage_service.Prelude.{ℕ, ◌+◌, ◌-◌, ◌*◌, ◌/◌, ◌%◌, List}
use simple_storage_service.Prelude.Tests.{◌==◌, if◌then◌else◌}
use simple_storage_service.Prelude.Lists.{take, drop, length}

pub record Pagination {ℓ} (Item : Type ℓ) : Type ℓ where
  pub data_items : List Item
  pub current_page : ℕ
  pub total_pages : ℕ
  pub total_records : ℕ

-- `Math.floor(total / limit + (remainder ? 1 : 0))`.
unfoldable pub total_pages_of : ℕ → ℕ → ℕ
total_pages_of total limit = total / limit + (if total % limit == 0 then 0 else 1)

module _ {ℓ} {Item : Type ℓ} where
  unfoldable pub paginate : List Item → ℕ → ℕ → ℕ → Pagination Item
  unfolding total_pages_of
  paginate rows total limit page = record {
    data_items = rows;
    current_page = page;
    total_pages = total_pages_of total limit;
    total_records = total;
  }

  -- `.limit(limit).offset((page - 1) * limit)`, for pages from 1 on.
  unfoldable pub page_rows : List Item → ℕ → ℕ → List Item
  page_rows rows limit page = take limit (drop ((page - 1) * limit) rows)

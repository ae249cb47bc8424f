-- ===== src/Erp.antt =====
-- The mock ERP/CMMS, mock-erp-cmms/main.py: work orders, inventory and reorder requests behind an API
-- key. `Store` has its tables, `Orders` and `Stock` the handlers, `Serve` all of them as one server,
-- and
-- `Lifecycle` and `WellFormed` what every request keeps.
mod Store
mod Orders
mod Stock
mod Serve
pub mod Lifecycle
pub mod WellFormed
unfoldable pub use Store.*
unfoldable pub use Orders.*
unfoldable pub use Stock.*
unfoldable pub use Serve.*

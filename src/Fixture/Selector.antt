-- ===== src/Fixture/Selector.antt =====
-- internal/fixture/selector.go, cel.go and static_selector.go: which fixture answers a request.
mod Legacy
mod Yaml
mod Best
mod Entries
unfoldable pub use Legacy.*
unfoldable pub use Yaml.*
pub use Best.*
pub use Entries.*

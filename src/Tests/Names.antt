-- ===== src/Tests/Names.antt =====
-- The definition of the table of the tests.
use pulpitum.Base.{◌≡◌, ◌↔◌}
use pulpitum.Domain.Schema.{ok, validate}
use pulpitum.Domain.Definitions.{IsWellFormed, validate_iff}
use pulpitum.Tests.Samples.{day_table}

validate_iff_example : (validate day_table ≡ ok tt) ↔ IsWellFormed day_table
validate_iff_example = validate_iff day_table

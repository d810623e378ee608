-- ===== src/Value/Update/Get.antt =====
-- A lookup after an update of a map of inquint/src/value.rs.
use inquint.Value.Compare.Instance.{value_ordered}

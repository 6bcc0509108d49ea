-- ===== src/Examples/Listings.antt =====
-- The list of the runs of a service with one run and a full queue, and its property.
use agent_projects.Prelude.{List}
use agent_projects.Service.State.{Service}
use agent_projects.Examples.Services.{busy, fresh}

abbrev full : Service (Unit {0})
full = record fresh.service { scheduler = busy }

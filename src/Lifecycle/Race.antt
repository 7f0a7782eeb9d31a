-- ===== src/Lifecycle/Race.antt =====
-- `retryProvisioning` and a job: the request reads the tenant without a lock and writes it without
-- reading it again.
use gatway_pagamento_escrito.Prelude.{ℕ}
use gatway_pagamento_escrito.Tenants.Repository.{find_tenant}
use gatway_pagamento_escrito.Worker.Provisioning.{start_attempt}
use gatway_pagamento_escrito.Lifecycle.Phases.{creating}
use gatway_pagamento_escrito.Lifecycle.Jobs.{World, with_tables}
use gatway_pagamento_escrito.Lifecycle.System.{set_read}

-- The world after the read and the start of the job
abbrev busy : ℕ → ℕ → ℕ → World → World
busy request k begin_at w =
    with_tables (record w { reads = set_read request k (find_tenant k w.db.tables) w.reads })
      (start_attempt k begin_at w.db.tables) creating k

-- ===== src/Readme/Layers.antt =====
-- The constants of planning/update_readme_compatibility.py. The sets are lists here; a loop over one
-- meets its members in an order that Python does not fix, and here in that of the list.
use lua_mongodb.Base.{String, List, [], ◌∷◌, ◌++◌}

abbrev pub begin_marker : String
begin_marker = "<!-- BEGIN SPEC CONFORMANCE -->"

abbrev pub end_marker : String
end_marker = "<!-- END SPEC CONFORMANCE -->"

abbrev pub specifications_url : String
specifications_url = "https://alexbevi.com/specifications/"

abbrev pub old_server_only : String
old_server_only = "old_server_only"

abbrev pub unscored_exclusion : String
unscored_exclusion = "unscored_exclusion"

-- a layer with its suites, each with its label
abbrev pub Layer : Type 0
Layer = String × List (String × String)

abbrev pub driver_layers : List Layer
driver_layers =
    (
      "Serialization",
      ("bson-corpus", "BSON corpus") ∷ ("bson-binary-vector", "BSON binary vector") ∷ [],
    )
    ∷ (
      "Communication",
      ("connection-string", "Connection string")
          ∷ ("uri-options", "URI options")
          ∷ ("mongodb-handshake", "Handshake metadata propagation")
          ∷ ("initial-dns-seedlist-discovery", "Initial DNS seedlist discovery")
          ∷ ("ocsp-support", "OCSP support")
          ∷ ("compression", "Wire compression")
          ∷ ("socks5-support", "SOCKS5 proxy support")
          ∷ ("run-command", "Command execution")
          ∷ [],
    )
    ∷ (
      "Connectivity",
      ("server-discovery-and-monitoring", "Server discovery and monitoring")
          ∷ ("connection-monitoring-and-pooling", "Connection monitoring and pooling")
          ∷ ("load-balancers", "Load balancer support")
          ∷ [],
    )
    ∷ ("Authentication", ("auth", "Authentication options and additional mechanisms") ∷ [])
    ∷ (
      "Availability",
      ("server-selection", "Server selection")
          ∷ ("max-staleness", "Max staleness")
          ∷ ("polling-srv-records-for-mongos-discovery", "Periodic SRV polling")
          ∷ [],
    )
    ∷ (
      "Resilience",
      ("retryable-reads", "Retryable reads")
          ∷ ("retryable-writes", "Retryable writes")
          ∷ ("client-side-operations-timeout", "Client-side operations timeout")
          ∷ ("sessions", "Sessions")
          ∷ ("causal-consistency", "Causal consistency")
          ∷ ("transactions", "Transactions")
          ∷ ("transactions-convenient-api", "Convenient transactions API")
          ∷ [],
    )
    ∷ (
      "Programmability",
      ("crud", "CRUD")
          ∷ ("collection-management", "Collection management")
          ∷ ("index-management", "Index management")
          ∷ ("read-write-concern", "Read/write concern")
          ∷ ("change-streams", "Change streams")
          ∷ ("gridfs", "GridFS")
          ∷ ("versioned-api", "Stable API")
          ∷ ("client-side-encryption", "Client-side encryption")
          ∷ [],
    )
    ∷ (
      "Observability",
      ("command-logging-and-monitoring", "Command logging and monitoring")
          ∷ ("logging", "Standardized logging")
          ∷ ("client-backpressure", "Client backpressure")
          ∷ ("open-telemetry", "OpenTelemetry")
          ∷ [],
    )
    ∷ (
      "Testability",
      ("atlas-sfp-testing", "Atlas SFP testing")
          ∷ ("unified-test-format", "Unified test format")
          ∷ [],
    )
    ∷ []

abbrev pub specification_documents : List (String × String)
specification_documents =
    ("auth", "auth/auth.md")
    ∷ ("atlas-sfp-testing", "atlas-sfp-testing/atlas-sfp-testing.md")
    ∷ ("bson-binary-vector", "bson-binary-vector/bson-binary-vector.md")
    ∷ ("bson-corpus", "bson-corpus/bson-corpus.md")
    ∷ ("causal-consistency", "causal-consistency/causal-consistency.md")
    ∷ ("change-streams", "change-streams/change-streams.md")
    ∷ (
      "client-backpressure",
      "connection-monitoring-and-pooling/connection-monitoring-and-pooling.md",
    )
    ∷ ("client-side-encryption", "client-side-encryption/client-side-encryption.md")
    ∷ (
      "client-side-operations-timeout",
      "client-side-operations-timeout/client-side-operations-timeout.md",
    )
    ∷ ("collection-management", "enumerate-collections/enumerate-collections.md")
    ∷ (
      "command-logging-and-monitoring",
      "command-logging-and-monitoring/command-logging-and-monitoring.md",
    )
    ∷ ("compression", "compression/OP_COMPRESSED.md")
    ∷ (
      "connection-monitoring-and-pooling",
      "connection-monitoring-and-pooling/connection-monitoring-and-pooling.md",
    )
    ∷ ("connection-string", "connection-string/connection-string-spec.md")
    ∷ ("crud", "crud/crud.md")
    ∷ ("gridfs", "gridfs/gridfs-spec.md")
    ∷ ("index-management", "index-management/index-management.md")
    ∷ (
      "initial-dns-seedlist-discovery",
      "initial-dns-seedlist-discovery/initial-dns-seedlist-discovery.md",
    )
    ∷ ("load-balancers", "load-balancers/load-balancers.md")
    ∷ ("logging", "logging/logging.md")
    ∷ ("max-staleness", "max-staleness/max-staleness.md")
    ∷ ("mongodb-handshake", "mongodb-handshake/handshake.md")
    ∷ ("ocsp-support", "ocsp-support/ocsp-support.md")
    ∷ ("open-telemetry", "open-telemetry/open-telemetry.md")
    ∷ (
      "polling-srv-records-for-mongos-discovery",
      "polling-srv-records-for-mongos-discovery/polling-srv-records-for-mongos-discovery.md",
    )
    ∷ ("read-write-concern", "read-write-concern/read-write-concern.md")
    ∷ ("retryable-reads", "retryable-reads/retryable-reads.md")
    ∷ ("retryable-writes", "retryable-writes/retryable-writes.md")
    ∷ ("run-command", "run-command/run-command.md")
    ∷ (
      "server-discovery-and-monitoring",
      "server-discovery-and-monitoring/server-discovery-and-monitoring.md",
    )
    ∷ ("server-selection", "server-selection/server-selection.md")
    ∷ ("sessions", "sessions/driver-sessions.md")
    ∷ ("socks5-support", "socks5-support/socks5.md")
    ∷ ("transactions", "transactions/transactions.md")
    ∷ ("transactions-convenient-api", "transactions-convenient-api/transactions-convenient-api.md")
    ∷ ("unified-test-format", "unified-test-format/unified-test-format.md")
    ∷ ("uri-options", "uri-options/uri-options.md")
    ∷ ("versioned-api", "versioned-api/versioned-api.md")
    ∷ []

abbrev pub catalog_prose_suites : List String
catalog_prose_suites =
    "atlas-sfp-testing" ∷ "compression" ∷ "logging" ∷ "ocsp-support"
    ∷ "polling-srv-records-for-mongos-discovery" ∷ "socks5-support" ∷ []

abbrev pub catalog_mixed_suites : List String
catalog_mixed_suites = "auth" ∷ "gridfs" ∷ []

abbrev pub catalog_projected_suites : List String
catalog_projected_suites = catalog_prose_suites ++ catalog_mixed_suites

abbrev pub catalog_requirement_statuses : List String
catalog_requirement_statuses =
    "deferred_unsupported" ∷ "excluded" ∷ "no_machine_cases" ∷ "not_applicable" ∷ "passed"
    ∷ "unsupported" ∷ []

abbrev pub non_execution_statuses : List String
non_execution_statuses =
    "no_machine_cases" ∷ "not_applicable" ∷ old_server_only ∷ unscored_exclusion ∷ "unsupported"
    ∷ []

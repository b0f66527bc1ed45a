-- ===== src/Lib.antt =====
-- Spawnly: identity, authorisation and lifecycle of agents on a platform.
--
-- The agent registry (cmd/registry, internal/registry) is the platform's authority: it keeps the
-- records of agents, templates, organizations and consents, writes the relationships by which SpiceDB
-- answers permission checks, and decides who may spawn, revoke, resume and register agents. Workloads
-- prove themselves by SPIFFE ids (internal/spiffe), and the operator (internal/operator) fails the
-- records whose workload is gone. This library models these parts as functions and proves what makes
-- them correct.
--
-- Files, and the code each is about:
--   Consent            internal/registry/consent.go
--   Registry/Types     internal/registry/types.go, internal/events/types.go
--   Registry/Schema    internal/registry/schema.go (Validate), schemastate.go (ValidateTemplate)
--   Registry/Store     the in-memory store of cmd/registry/main.go, and store_adapter.go
--   Registry/Requests  its consents and consent requests: upsertConsent ... resolveConsentRequest
--   Registry/Dynamostore
--                      internal/registry/dynamostore/store.go: the durable store. Keys and Items are
--                      the layout of the table, Catalog, Consents, Requests and Resolution its
--                      operations; Refinement sets it beside the in-memory store, Interleaving sets
--                      its concurrent calls beside each other
--   Registry/Lineage   subtree, depth and the chain of an agent, in cmd/registry/main.go
--   Registry/World     what a handler works on: the store, the calls to SpiceDB, the clock
--   Registry/Authority agentAllowed, orgIsDisabled, writeAuthorityTuples
--   Registry/Cascade   revokeNode, resumeNode, cascadeOverRoots, applyRemovalDisposition, and the
--                      suspensions of cmd/registry/users.go and orgs.go
--   Registry/Control   the handlers dismiss, revoke, resume, subtree, chain, delegation-policy and
--                      spawn-policy
--   Registry/Directory internal/orgdirectory/directory.go: the port to the identity backend
--   Keycloak           internal/orgdirectory/keycloak/keycloak.go, the adapter behind the port: Reps and
--                      Users edit accounts, Organizations and Clients the rest; Port is the adapter as
--                      the directory that the handlers take
--   Registry/Users     cmd/registry/users.go
--   Registry/Anchor    cmd/registry/anchor.go, substrate.go
--   Registry/Orgs      cmd/registry/orgs.go: creation, settings, suspension and members of organizations
--   Registry/Registration, Registry/Admission, Registry/Lifecycle
--                      the handlers preregister; POST /v1/agents; events and PATCH /v1/agents
--   Registry/Catalog   the handlers of /v1/templates
--   Registry/Broker    the handlers of /v1/consents and /v1/consent-requests, and their backstop
--   Spicedb            internal/spicedb/objectid.go, and the calls of the Client interface
--   Spiffe             internal/spiffe/path.go
--   Attestor           internal/attestor/aws_verify.go: SessionNameFromArn, MatchRoleArnPattern
--   Registrant         internal/registrant/registrant.go (Identity) and orgaware.go: the binding of a
--                      credential to the organization of its agent
--   Operator           internal/operator/stalesweep.go
--   Prelude            shared names, maps keyed by text, Go's text functions
--   Examples           concrete states, and the theorems at them
--
-- How the code is modelled:
--   A store method holds one lock for its whole body, so it is one function from a state to a result
--   and a state. A handler is a function of the store, of the calls made to SpiceDB so far and of the
--   number of clock reads; it is taken to run alone. A Go map is an association list, and a range over
--   it takes the list's order. Texts are native strings; where bytes matter (object ids, SPIFFE ids)
--   they are lists of numbers below 256. A nil and an empty slice are the same list, but for the scopes
--   of an approval and the result of subtree. Times are nanoseconds.
--   Outside the model, and so parameters of it: the clock and the random bytes, time.ParseDuration,
--   SpiceDB's replies and their errors (Env); the control-plane authenticator's verdict, the verifier's
--   identity and the decoded request body (arguments of a handler); what the registry and the cluster
--   answer to the operator (arguments of the sweep).
--   DynamoDB itself is a parameter too (Service), and what its documentation says of a table is a
--   hypothesis (Works): a write succeeds unless its condition fails, a transaction is one write, and a
--   consistent read finds what the writes before it left. A read that is not consistent does so only
--   where the replicas have caught up (Settled), which a write undoes; elsewhere it may fail or answer
--   anything. Its concurrent use is a step relation, one step for each access of a call, so that the
--   calls come in any order between two accesses. A call in company runs on a service that others use
--   (Shares): before each access come steps of others, of a relation that is a parameter (Company), and
--   they make no request of an id that the call makes; a read that is not consistent may be late, any
--   access may fail, and the answer of a write that takes place may be lost. A query answers items of
--   the table as they are or were (Finds). What a call does to the table that it finds is a Run: steps
--   of the others, and steps of its own, which May lists for each call.
--   Keycloak is a parameter (Admin), one field for each request; the theorems on accounts suppose a
--   Keycloak that answers and that no one else edits meanwhile (Answers).
--   The verifiers that check signatures, the decoding of a credential and the replay of a presigned
--   request against AWS are arguments of the registrant and of the anchor's activation.
--   The in-memory store's methods never return an error, so the 500 branches that only a durable
--   store reaches are left out of the handlers; the walks along the lineage are over reads that may
--   fail, and keep those branches.
--
-- Fuel: the walk of subtree has one round for each agent and one more, the climb of depth likewise.
-- The chain handler's own bound of 32 rounds is in the code, and so are the five rounds in which the
-- durable store opens a consent request. The loops over Keycloak's pages have no bound in the code: they
-- run on a given number of rounds, and any that exceeds the number of full pages is enough.
--
-- Not modelled: ParseSchema, the other verifiers of the registrant, the orchestrator, the sidecar, the
-- operator's reconciler, the dashboard, the mobile gateway, the SDKs and the Terraform provider; the gRPC
-- and HTTP clients, configuration and start-up, which are input and output.
pub mod Prelude
pub mod Consent
pub mod Registry
pub mod Spicedb
pub mod Spiffe
pub mod Operator
pub mod Keycloak
pub mod Attestor
pub mod Registrant
pub mod Examples

-- ===== src/Lib.antt =====
-- The Clavenar Helm chart is checked in CI by three Python scripts. Each compares what `helm
-- template` renders with a contract of the repository, and ends with status 0 or 1:
--
-- * scripts/check-listener-matrix.py compares the rendered Services and NetworkPolicies with
--   charts/clavenar/listeners.yaml, and the chart's values with the rules of their profile.
--   Listener/Values models `merge`, `value_at` and `effective_values`, Listener/Condition models
--   `condition_enabled` and `contract_enabled`, Listener/Selectors the label selectors and
--   `pod_selector_matches`, Listener/Format `str.format` on the names of the matrix,
--   Listener/Services `expected_services` and `normalized_service_spec`, Listener/Policies
--   `expected_policies`, Listener/Peers the validators of configured peers, Listener/Profile
--   `validate_deployment_profile`, Listener/Environments `validate_service_env_uniqueness`,
--   Listener/Ledger `validate_ledger_trusted_proxy_contract`, Listener/Vault
--   `validate_vault_test_hook`, Listener/Console `validate_console_contract`, Listener/Brain
--   `validate_brain_auxiliary_contract`, Listener/Assurance `validate_assurance_contract`, and
--   Listener/Capabilities `validate_workload_capability_contract`. Listener/Digest models
--   `canonical` and `matrix_digest`, Listener/Validate the body of `validate` and its composition of
--   the validators, part by part as the source has it: Validate/Matrix the listeners and Service
--   objects of the matrix, Validate/Contracts its policy contracts, Validate/Services the rendered
--   Services, Validate/Publications the published ports, Validate/Workloads the Pods and their probes,
--   and Validate/Policies the rendered NetworkPolicies; Listener/Main models `main`, whose parsed files
--   are its inputs. Listener/Errors has
--   the composition of validators, Listener/Rendered the reads of a document that they share, and
--   Listener/Workload the checks of ports, environment, probes and certificates that the console,
--   the brain and assurance share; where the source writes such a check out three times, one
--   definition with the service's name stands for the three.
-- * scripts/check-nats-authorization.py derives the permissions of each NATS client from
--   charts/clavenar/files/nats-authorization-v1.fixture.json and demands them of the values and of
--   the rendered broker. Nats/Permissions models `permissions` and `expected_authorization`,
--   Nats/Documents the searches in the render, Nats/Repository `check_repository` and `main`, and
--   Nats/Sync `sync_values_authorization`, a step on the texts of the two files that it rewrites, and
--   `main` with `--write-values`.
-- * scripts/check_dependency_readiness.py demands the probes, the startup gates, the readiness URLs
--   and the NetworkPolicy callers that the readiness contract describes. Readiness/Endpoint models
--   `endpoint_port_path`, Readiness/Contract the contract's documents and mirrors, Readiness/Target
--   `target_url`, Readiness/Documents the reads of the render, Readiness/Application and
--   Readiness/Case the body of `verify_case`, and Readiness/Main `values_for` and `main`.
--
-- The scripts share no code. What they share is Python: Value models the documents that
-- `yaml.safe_load` and `json.loads` give, with `==`, truth, indexing, `get`, `in`, `len`, `sorted`,
-- `int` and `str`, and the exceptions that these raise; Base models `str` methods, list
-- comprehensions whose body may raise, and exceptions as values of `Result`. An operation that
-- raises in Python raises here, at the same point of the order of evaluation, except where the list
-- below says otherwise. An operation that appends to a list of errors returns what it appends.
-- Files, the output of `helm template` and the mirrors of the contracts are inputs. The JSON decoder
-- that reads the broker's configuration and the capability bundle is a parameter of the definitions
-- that use it, and so is the hexadecimal SHA-256 of a text. `json.dumps` is modelled by Value/Json.
--
-- All recursion is structural on a document, a list or a text, so nothing runs out of fuel; the
-- decimal digits of a number n are taken on fuel n + 1, which is more than n has digits.
--
-- The bounds of the model: the keys of a mapping are texts, there are no floats, dates or bytes in a
-- document, integers are unbounded as in Python, and documents are trees (`copy.deepcopy` gives the
-- same value). The quotes of `repr` are as in Python, its escapes are those of backslash, quote, tab
-- and line ends. `int` reads ASCII digits. A URL has no control characters and no host in brackets.
-- The subjects of the NATS contract, which Python adds to sets, are texts, and the labels of a Pod
-- are a mapping.
--
-- A set is a list without repetition; where Python goes through a set, whose order it does not fix, the
-- model goes through it in the order of that list. A message that sorts a set sorts it here too.
--
-- Not modelled: the command lines, what the processes print, and the reading of files. The templates of
-- the chart, the shell scripts and the tests are not Python of these checks.
pub mod Base
pub mod Value
pub mod Listener
pub mod Nats
pub mod Readiness
pub mod Tests

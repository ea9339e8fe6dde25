-- ===== src/Lib.antt =====
-- The ingress-nginx controller of this repository (test-components/ingress-nginx): it reads
-- Ingresses, Services, Endpoints and Secrets from a Kubernetes cluster, builds a configuration
-- of servers, locations and backends from them, compares it with the running one, and reloads
-- nginx or sends it the changed backends. Paths below are relative to
-- test-components/ingress-nginx.
--
-- The files and what they model:
--   Prelude      texts, integers, lists and association lists as the other files use them
--   Equality     comparisons into Bool that are equivalences, the loops that compare two slices,
--                and the maps of texts
--   Sets         pkg/util/sets/match.go: Compare and StringElementsMatch. A slice is nil or
--                holds a list, since Compare tells the two apart
--   Pointers     pointers: nil or an address of a heap, with the test by which the Equal methods
--                start (the same address, or one nil)
--   Kube         the parts of the Kubernetes objects that the code reads
--   Externals    code outside this repository that the controller calls: parameters
--   Annotations  internal/ingress/annotations: the parsed configuration of each annotation and
--                its Equal method, one file for each, and parser/main.go (Parser): the getters
--   Parsers      internal/ingress/annotations: the Parse method of every annotation but auth-type,
--                internal/net/ipnet.go (Addresses) and annotations.go (Extract: what the replies of
--                all parsers make of an Ingress, for any order in which they are visited). Resolver
--                holds what they ask of the controller and of Go's net, net/url, time and base64
--   Api          pkg/apis/ingress: types.go and sslcert.go (Backends, Servers, Configurations,
--                Ingresses), the heap that their pointers point into (Heap), and types_equals.go
--                (Equal)
--   StringSets   sets.String of apimachinery: an interface with the documented laws
--   ObjectRefs   internal/ingress/controller/store/objectref.go: which Ingresses refer to which
--                objects
--   Controller   internal/ingress/controller: location.go (Locations), endpoints.go (Endpoints),
--                controller.go (Canary: how the backends of canary Ingresses join the primary
--                ones; Sync: syncIngress; Overlap: checkOverlap), upstreamName of util.go
--                (Upstreams), and nginx.go (Reload: is a reload needed?)
--                The building of the configuration is in Store (what it asks of the store and the
--                options: an interface), Services (ports and endpoints of a Service), Streams
--                (getStreamServices), CreateUpstreams, Certificates (certificate.go), Drafts and
--                CreateServers, Places (where a path goes), BackendServers (the loop over the
--                Ingresses), CustomBackends, Building (getBackendServers and getConfiguration as a
--                whole) and Removed (the getRemoved functions)
--   Names        internal/k8s/main.go: ParseNameNS
--   Task         internal/task/queue.go: the worker between the event handlers and the sync
--                function
--   Tests        runs at concrete inputs, and each theorem at an input that meets its hypotheses
--
-- How the code corresponds: a record has the fields of its struct in snake_case, a function has
-- the name of the Go function (updateServerLocations is update_server_locations), and a loop body
-- has a name of its own. An Equal method is two definitions: the comparison of two objects
-- (same_backend) and the method on pointers (backend_equal). All recursion is structural, and only
-- the digits of a number have fuel, one step more than the number, which is enough. Integers are ℤ
-- where the code has int or int32: it compares, prints and parses them, and the conversion of an
-- int to int32 wraps around. While a configuration is built, its servers, locations and upstreams
-- go by value (a Draft is a server with its locations): each stands in one place. The snippets that
-- dropSnippetDirectives empties are dropped each time the annotations are read. The map of cookie
-- locations of an upstream may be nil, which is none; to write to it panics. A regular expression
-- is a function on texts that follows its parts. A parser replies with a value and an error, each
-- of which may be nil; a value of the extraction is the change that the merge makes with it.
-- Logging is left out. Maps that the code ranges over are association lists in some order, and no
-- theorem depends on which.
--
-- Not modelled: the informers and caches of client-go, the nginx process, the generation of its
-- configuration file, certificates, metrics, the webhook and the command lines, which are I/O or
-- calls of other libraries. The parser of auth-type writes a file, and is a parameter of the
-- extraction. The rest of nginx.go, the store, the status of the Ingresses, and of controller.go the
-- counters of reloads and CheckIngress are outside the model.
pub mod Prelude
pub mod Equality
pub mod Sets
pub mod Parsers
pub mod Pointers
pub mod Kube
pub mod Annotations
pub mod Externals
pub mod Api
pub mod StringSets
pub mod ObjectRefs
pub mod Names
pub mod Task
pub mod Controller
mod Tests

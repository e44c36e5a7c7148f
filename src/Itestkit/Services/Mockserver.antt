-- ===== src/Itestkit/Services/Mockserver.antt =====
-- itestkit/httpmock.go: `startHTTPMocks`.
use Prim.Native.String.{◌++◌}
use aeternixth_go_lib.Prelude.{ℕ, Bool, String, List, [], ◌∷◌, map, ◌⊎◌, inl, inr, if◌then◌else◌}
use aeternixth_go_lib.Prelude
use aeternixth_go_lib.Prelude.{str_eq}
use aeternixth_go_lib.Itestkit.Files.{FileSystem}
use aeternixth_go_lib.Itestkit.Files.Walk.{collect_files_for_container}
use aeternixth_go_lib.Itestkit.Options.{HttpMockOptions, mock_server, wire_mock}
use aeternixth_go_lib.Itestkit.Docker.{
  Client, Customizer, env, files, Docker, mock_image, wire_image, or_terminate,
}
use aeternixth_go_lib.Itestkit.Validation.{provider_of}
use aeternixth_go_lib.Itestkit.Services.{
  or_default, network_alias, extra_env, start_container, start_all,
}

pub record HttpMockResource : Type 0 where
  pub name : String
  pub provider : String
  pub base_url : String
  pub host : String
  pub port : String
  pub container : ℕ

module _ (k : Client) (fs : FileSystem) (net : Bool) where
  -- The common end of the two providers: host, port and the resource.
  abbrev pub mock_resource :
      String → String → String → ℕ → Docker → (HttpMockResource ⊎ String) × Docker
  mock_resource name provider port_name c d1 =
      or_terminate c (λ e. "host: " ++ e) d1 (k.host c)
        (λ host.
          or_terminate c (λ e. "mapped port: " ++ e) d1 (k.mapped_port c port_name)
            (λ port. (
              inl (record {
                name = name;
                provider = provider;
                base_url = "http://" ++ (host ++ (":" ++ port));
                host = host;
                port = port;
                container = c;
              }),
              d1,
            )))

  unfoldable pub mock_server_customizers : String → HttpMockOptions → List Customizer ⊎ String
  mock_server_customizers name cfg =
      inl (Prelude.◌++◌ (network_alias net ("mockserver-" ++ name)) (extra_env cfg.extra_env))

  -- `startOneMockServer`
  unfoldable pub start_one_mock_server :
      String → HttpMockOptions → Docker → (HttpMockResource ⊎ String) × Docker
  unfolding start_container mock_server_customizers
  start_one_mock_server name cfg d =
      start_container k mock_image (or_default cfg.image "mockserver/mockserver:5.15.0")
        (mock_server_customizers name cfg) (mock_resource name mock_server "1080/tcp") d

  unfoldable pub wire_customizers : String → HttpMockOptions → List Customizer ⊎ String
  unfolding collect_files_for_container
  wire_customizers name cfg =
      elim (collect_files_for_container fs cfg.mapping_paths "/home/wiremock/mappings"
        cfg.strict_path ("httpmock[" ++ (name ++ "] mapping"))) [
          | inr err ↦ inr err
          | inl mappings ↦
              elim (collect_files_for_container fs cfg.file_paths "/home/wiremock/__files"
                cfg.strict_path ("httpmock[" ++ (name ++ "] file"))) [
                  | inr err ↦ inr err
                  | inl others ↦ inl (
                      env cfg.extra_env
                      ∷ files (Prelude.◌++◌ mappings others)
                      ∷ network_alias net ("wiremock-" ++ name))
                ]
        ]

  -- `startOneWireMock`
  unfoldable pub start_one_wire_mock :
      String → HttpMockOptions → Docker → (HttpMockResource ⊎ String) × Docker
  unfolding start_container wire_customizers
  start_one_wire_mock name cfg d =
      start_container k wire_image (or_default cfg.image "wiremock/wiremock:3.9.1")
        (wire_customizers name cfg) (mock_resource name wire_mock "8080/tcp") d

  -- The switch of the loop in `startHTTPMocks`.
  unfoldable pub start_one_mock :
      String → HttpMockOptions → Docker → (HttpMockResource ⊎ String) × Docker
  unfolding start_one_mock_server start_one_wire_mock
  start_one_mock name cfg d =
      if str_eq (provider_of cfg) mock_server
      then start_one_mock_server name cfg d
      else if str_eq (provider_of cfg) wire_mock
      then start_one_wire_mock name cfg d
      else (inr ("itestkit: invalid http mock provider: " ++ k.quote (provider_of cfg)), d)

  -- `startHTTPMocks`
  unfoldable pub start_http_mocks :
      Bool
      → List (String × HttpMockOptions)
      → Docker
      → (List (String × HttpMockResource) ⊎ String) × Docker
  unfolding start_all start_one_mock
  start_http_mocks keep cfgs d =
      start_all (λ r. r.container) keep "httpmock" start_one_mock cfgs [] d

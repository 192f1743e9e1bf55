-- ===== src/Http/Handlers.antt =====
-- http.go: the handlers of the three pages. The templates, the marshalling, the time and the
-- connection are arguments.
use metalbond.Base.{ℕ, Option, none, some, List, ◌++◌, Comparable, same, ℕ_discrete, if◌then◌else◌}
use metalbond.Base.Map.{Map}
use metalbond.Base.Text.{Text, codes}
use metalbond.Types.{Destination, NextHop, destination_comparable}
use metalbond.RouteTable.{RouteTable}
use metalbond.Http.{get_json_routes}
use metalbond.Http.Order.{in_order}

unfoldable pub Text-discrete : Discrete Text
Text-discrete = hlevel ℕ_discrete

instance abbrev pub text_comparable : Comparable Text
text_comparable = record { equals = Text-discrete }

-- `jsonRoutes`
pub record JsonRoutes (A P : Type 0) : Type 0 where
  pub date : Text
  pub vnet : Map ℕ (Map (Destination P) (List (NextHop A)))
  pub metal_bond_version : Text

-- `http.ResponseWriter`, whose state is `W`; a write may fail, with the text of its error
pub record ResponseWriter (W : Type 0) : Type 0 where
  pub write_header : ℕ → W → W
  pub add_header : Text → Text → W → W
  pub write : Text → W → W × Option Text

-- a text, or the text of an error
pub data Rendered : Type 0 where
  rendered broken : Text → Rendered

-- What the pages are made with. `parse_files` has the error of the template, and `execute` the output
-- up to its error.
pub record Renderer (A P : Type 0) : Type 0 where
  pub parse_files : Option Text
  pub execute : JsonRoutes A P → Text × Option Text
  pub marshal_indent : JsonRoutes A P → Rendered
  pub marshal_yaml : JsonRoutes A P → Rendered

module _ {W : Type 0} (writer : ResponseWriter W) where
  -- `fmt.Fprintf(w, "Error: %v", err)`
  unfoldable pub print_error : Text → W → W
  print_error e w = (writer.write (codes "Error: " ++ e) w).0

  unfoldable pub fail_with : Text → W → W
  fail_with e w = print_error e (writer.write_header 500 w)

  -- the end of `jsonHandler` and `yamlHandler`
  unfoldable pub send_rendered : Text → Rendered → W → W
  send_rendered content_type (broken e) w = fail_with e w
  send_rendered content_type (rendered out) w =
      let (w', err) = writer.write out (writer.add_header (codes "Content-Type") content_type w) in
      elim err [ some e ↦ print_error e w' | none ↦ w' ]

module _ {A P R W : Type 0} ⦃cp : Comparable P⦄ (print_addr : A → Text) (version : Text)
    (writer : ResponseWriter W) (renderer : Renderer A P) where
  -- `getJsonRoutes`, whose error is always nil
  unfoldable pub json_routes :
      Text → RouteTable (Destination P) (NextHop A) R → JsonRoutes A P × Option Text
  json_routes now rt = (
    record {
      date = now;
      vnet = get_json_routes (in_order print_addr) rt;
      metal_bond_version = version;
    },
    none,
  )

  unfoldable pub main_handler : Text → RouteTable (Destination P) (NextHop A) R → W → W
  main_handler now rt w = elim renderer.parse_files [
    | some e ↦ fail_with writer e w
    | none ↦
        let (js, err) = json_routes now rt in
        elim err [
          | some e ↦ fail_with writer e w
          | none ↦
              let (out, failure) = renderer.execute js in
              let w' = (writer.write out w).0 in
              elim failure [ some e ↦ fail_with writer e w' | none ↦ w' ]
        ]
  ]

  unfoldable pub json_handler : Text → RouteTable (Destination P) (NextHop A) R → W → W
  json_handler now rt w =
      let (js, err) = json_routes now rt in
      elim err [
        | some e ↦ fail_with writer e w
        | none ↦ send_rendered writer (codes "application/json") (renderer.marshal_indent js) w
      ]

  unfoldable pub yaml_handler : Text → RouteTable (Destination P) (NextHop A) R → W → W
  yaml_handler now rt w =
      let (js, err) = json_routes now rt in
      elim err [
        | some e ↦ fail_with writer e w
        | none ↦ send_rendered writer (codes "text/yaml") (renderer.marshal_yaml js) w
      ]

  -- `serveJsonRouteTable`: the path `/` stands for all that have no other handler
  unfoldable pub serve_request : Text → RouteTable (Destination P) (NextHop A) R → Text → W → W
  serve_request now rt path w =
      if same path (codes "/routes.json")
      then json_handler now rt w
      else if same path (codes "/routes.yaml")
      then yaml_handler now rt w
      else main_handler now rt w

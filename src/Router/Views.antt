-- ===== src/Router/Views.antt =====
-- The views that an address can name (`VIEW_ROUTES`), and what is found under a name.
use soldesk.Prelude.{String, List, [], ◌∷◌, ◌===◌, if◌then◌else◌}
use soldesk.Js.TextSet.{has}

pub record ViewRoute : Type 0 where
  pub scripts : List String
  pub action : String
  pub prefetch : List String

-- What `VIEW_ROUTES[view]` finds: an entry, a property that every object inherits, or nothing.
pub data Config : Type 0 where
  entry : ViewRoute → Config
  inherited missing : Config

abbrev pub mypage_js : String
mypage_js = "/js/user/mypage.js"

abbrev pub edit_js : String
edit_js = "/js/user/edit.js"

abbrev pub changepw_js : String
changepw_js = "/js/user/changepw.js"

abbrev pub booking_history_js : String
booking_history_js = "/js/user/booking_history.js"

abbrev pub theaters_main_js : String
theaters_main_js = "/js/theaters/theaters_main.js"

abbrev pub theaters_detail_js : String
theaters_detail_js = "/js/theaters/theaters_detail.js"

abbrev pub movie_main_js : String
movie_main_js = "/js/movie/movie_main.js"

abbrev pub movie_detail_js : String
movie_detail_js = "/js/movie/movie_detail.js"

abbrev pub concert_main_js : String
concert_main_js = "/js/concert/concert_main.js"

abbrev pub concert_detail_js : String
concert_detail_js = "/js/concert/concert_detail.js"

abbrev pub concert_booking_js : String
concert_booking_js = "/js/concert/concert_booking.js"

abbrev pub concert_booking_modal_js : String
concert_booking_modal_js = "/js/concert/concert_booking_modal.js"

abbrev pub home_js : String
home_js = "/js/main/home.js"

abbrev pub footer_js : String
footer_js = "/js/main/body3.js"

abbrev pub view_routes : List (String × ViewRoute)
view_routes =
    (
      "mypage",
      record {
        scripts = mypage_js ∷ [];
        action = "openMyPage";
        prefetch = edit_js ∷ changepw_js ∷ [];
      },
    )
    ∷ (
      "edit",
      record {
        scripts = mypage_js ∷ edit_js ∷ [];
        action = "openUserEdit";
        prefetch = changepw_js ∷ [];
      },
    )
    ∷ (
      "changepw",
      record {
        scripts = mypage_js ∷ changepw_js ∷ [];
        action = "openChangePw";
        prefetch = edit_js ∷ [];
      },
    )
    ∷ (
      "booking_history",
      record {
        scripts = booking_history_js ∷ [];
        action = "openBookingHistory";
        prefetch = mypage_js ∷ [];
      },
    )
    ∷ (
      "booking",
      record {
        scripts = theaters_main_js ∷ [];
        action = "openTheatersMain";
        prefetch = theaters_detail_js ∷ [];
      },
    )
    ∷ (
      "concert_booking",
      record {
        scripts = concert_booking_js ∷ [];
        action = "openConcertBookingFromRouter";
        prefetch = concert_booking_modal_js ∷ [];
      },
    )
    ∷ []

-- The properties of `Object.prototype`.
abbrev pub inherited_names : List String
inherited_names =
    "constructor" ∷ "__defineGetter__" ∷ "__defineSetter__" ∷ "hasOwnProperty" ∷ "__lookupGetter__"
    ∷ "__lookupSetter__" ∷ "isPrototypeOf" ∷ "propertyIsEnumerable" ∷ "toString" ∷ "valueOf"
    ∷ "__proto__" ∷ "toLocaleString" ∷ []

find_config : String → List (String × ViewRoute) → Config
find_config view [] = if has view inherited_names then inherited else missing
find_config view ((name, config) ∷ rest) =
    if name === view then entry config else find_config view rest

unfoldable pub config_of : String → Config
unfolding find_config
config_of view = find_config view view_routes

-- ===== src/Lib.antt =====
-- The browser client of a ticketing site. The router reads the address, shows the page it
-- names, and loads its script; the pages read films, screenings and concerts from the services;
-- the booking windows let the user choose seats, send a booking to the write services, wait for
-- a queued one by polling, and report the result to the page that opened them; the account is a
-- record in the storage of the browser; the booking history lists bookings and refunds them;
-- the account forms test what is typed, send it, and write the stored account; the home page
-- shows slides of films. The model is of these parts as the client computes with them, without
-- the markup.
--
-- Files, each with the source it is about (paths under frontend/src/js):
--   Concert/Modal and its children: concert/concert_booking_modal.js. venue_of is the block of
--     constants of openConcertBookingModal, Modal its local variables together with what the
--     window shows, Events its listeners (handleSeatClick, closeModalFromUser, the click on the
--     submit button up to each wait, and what follows each answer), Grid the rows and pages of
--     renderLargeGrid and the seats of renderSmallGrid, Outcome the messages. Concert/Seat: the
--     seat keys. Concert/Page: concert/concert_booking.js, the shows and reserved seats of the
--     page.
--   WriteApi: common/write-api.js, the answers of the write services and
--     pollAsyncBookingStatus.
--   Theaters/Detail and its children: theaters/theaters_detail.js, the booking window of a
--     screening, laid out as the concert window is. Theaters/Dataset:
--     theaters/theaters_main.js, the screenings as the page reads, refreshes and offers them.
--     Theaters/Prefill: applyBookingUrlMoviePrefill, the choice that the page starts with for a
--     film; theaters stand by their ids, and what the engine makes of dates is the record
--     Calendar. Theaters/Session: the state of that page, ensureStateDefaults, the days it
--     offers and the listeners of its panels; what the engine makes of the days is the record
--     Days. Theaters/Panel: the sections of the screenings by hall that renderDatePanel makes,
--     with the order of localeCompare as a parameter. Theaters/Month: the month of the calendar
--     that renderCalMonth makes, with the days of the Gregorian calendar written out.
--   Router: main/router.js, getRouteFromUrl and buildUrlFromRoute. Router/Screens:
--     normalizeLegacyUrlIfNeeded and renderRoute. Router/Views: VIEW_ROUTES. Router/Loading:
--     the loading layer of queueRender.
--   Account: the storage functions of common/app-config.js.
--   Runtime: the rest of common/app-config.js. Runtime/Files: ensureStyle, ensureScript,
--     prefetchScripts. Runtime/Scroll: the lock of the body's scrolling. Runtime/Requests:
--     requestJson, the origin of the services, and readApi and writeApi of common/read-api.js
--     and common/write-api.js over it.
--   Forms: the account forms. Forms/Signup: user/signup.js. Forms/Login: user/login.js.
--     Forms/PwFind: user/pwfind.js. Forms/ChangePw: user/changepw.js. Forms/Edit: user/edit.js.
--     Forms/Fields: the tests and filters that they share.
--   Home: main/body.js. Home/Films: loadMainMovies. Home/Slider: the slides, their timer and
--     the listeners.
--   Catalogue/Movies: movie/movie_main.js. Catalogue/Concerts: concert/concert_main.js.
--     Catalogue/Paging and Catalogue/Order: the paging and sorting that both do.
--   History: user/booking_history.js.
--   Prelude, Js, Selection: shared helpers. Js/Value has the loosely typed values of parsed
--     answers with the operators of the source on them (truthy for a test, or_else for ||,
--     string_of for String, to_int for toInt), Js/TextSet the sets of texts in their order of
--     insertion, Selection the condition on a choice of seats that both windows keep.
--   Tests: an engine that reads and prints whole numbers, data, and an example for each law
--     with a condition.
--
-- State and waiting. An asynchronous handler is cut at its waits: a first function runs to the
-- wait, an event with the answer or the error runs what follows, and a run is a list of events
-- in any order. Modal and Window count the commits and pollings that wait, and an answer with
-- none to wait for it does nothing; a click needs its element to be shown and enabled. What a
-- handler does to the outside (alerts, requests, reports to the page, reloads) goes to a log,
-- the newest first. Where a form or a layout can be opened again while a request of the old one
-- waits, overlays, pages and layouts are numbered, and what follows the wait touches only its
-- own. Requests of one kind whose order matters are answered by their place in the list of
-- those that wait. The waits for a style sheet are left out.
--
-- Outside the model stand the engine and the services. Engine is what the engine decides by its
-- tables: reading and printing numbers, upper and lower case, trimming. Nothing is assumed of
-- it but in Router/Roundtrip and what uses it, where IsEngine names three of its documented
-- laws. The answers, the clock and the times of the polling are arguments.
--
-- Numbers. toInt gives whole numbers, and the counts of the source are cut at 0 by Math.max, so
-- they are natural numbers here; ids of films, concerts and bookings in the lists are whole
-- numbers from 0 on. Numbers of the source are fractions or NaN or an infinity; no sum or
-- product here leaves the range in which they are exact.
--
-- Fuel. renderRoute calls itself after sending an unknown address to the root, where no further
-- call follows: two rounds. The polling has timeout / interval + 2 rounds, the most that fit
-- before its deadline if no wait is shorter than its interval.
--
-- Not modelled: the markup and styles, fetch itself, the pictures and the window for videos,
-- the header, the detail pages, the account page, the labels of the panels and the closing of
-- the calendar of theaters_main.js, and the services behind the answers. The user of an answer
-- to a sign-in, or of one that looks for an account, is an object or missing; the number of a
-- user who is edited is a text.
pub mod Prelude
pub mod Js
pub mod Selection
pub mod Runtime
pub mod WriteApi
pub mod Concert
pub mod Theaters
pub mod Router
pub mod Account
pub mod Forms
pub mod Catalogue
pub mod History
pub mod Home
pub mod Tests

-- ===== src/Submission/Build/Dockerfiles.antt =====
-- The texts of dockerfileFor of services/submission-service/main.go, line by line.
use iicpc_summer_hackathon.Prelude.{String, List, [], ◌∷◌}

abbrev pub rust_dockerfile : List String
rust_dockerfile =
    "FROM rust:1.78-slim AS builder" ∷ "WORKDIR /app" ∷ "COPY . ."
    ∷ "RUN cargo build --release 2>/dev/null || (test -f engine && cp engine /app/engine-out) || cp $(find . -maxdepth 2 -type f -executable | head -1) /app/engine-out"
    ∷ "FROM debian:bookworm-slim" ∷ "COPY --from=builder /app/engine-out /engine"
    ∷ "RUN chmod +x /engine" ∷ "EXPOSE 8080" ∷ "ENTRYPOINT [\"/engine\"]" ∷ []

abbrev pub cpp_dockerfile : List String
cpp_dockerfile =
    "FROM gcc:13-bookworm AS builder" ∷ "WORKDIR /app" ∷ "COPY . ."
    ∷ "RUN make 2>/dev/null || g++ -O3 -o engine $(find . -name \"*.cpp\" | head -5) -lpthread -lm"
    ∷ "FROM debian:bookworm-slim" ∷ "COPY --from=builder /app/engine /engine" ∷ "EXPOSE 8080"
    ∷ "ENTRYPOINT [\"/engine\"]" ∷ []

abbrev pub go_dockerfile : List String
go_dockerfile =
    "FROM golang:1.22-alpine AS builder" ∷ "WORKDIR /app" ∷ "COPY . ."
    ∷ "RUN go mod tidy 2>/dev/null; go build -o engine ./... 2>/dev/null || go build -o engine ."
    ∷ "FROM gcr.io/distroless/static-debian12" ∷ "COPY --from=builder /app/engine /engine"
    ∷ "EXPOSE 8080" ∷ "ENTRYPOINT [\"/engine\"]" ∷ []

abbrev pub c_dockerfile : List String
c_dockerfile =
    "FROM gcc:13-bookworm AS builder" ∷ "WORKDIR /app" ∷ "COPY . ."
    ∷ "RUN make 2>/dev/null || gcc -O3 -o engine $(find . -name \"*.c\" | head -5) -lpthread -lm"
    ∷ "FROM debian:bookworm-slim" ∷ "COPY --from=builder /app/engine /engine" ∷ "EXPOSE 8080"
    ∷ "ENTRYPOINT [\"/engine\"]" ∷ []

abbrev pub binary_dockerfile : List String
binary_dockerfile =
    "FROM debian:bookworm-slim" ∷ "WORKDIR /app" ∷ "COPY . ."
    ∷ "RUN chmod +x engine 2>/dev/null || true" ∷ "EXPOSE 8080" ∷ "ENTRYPOINT [\"./engine\"]" ∷ []
